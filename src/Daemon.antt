-- ===== src/Daemon.antt =====
-- boost_asio/cpp_03_example/daemon.cpp: the UDP server, and how `main` turns the process into a daemon.
-- What the forks return and which descriptors the system hands out are arguments.
pub mod Detached
pub mod Receives
use boost_learn.Common.{
  ℕ, zero, suc, ◌+◌, Bool, true, false, Option, none, some, List, [], ◌∷◌, ◌++◌, if◌then◌else◌,
  Bytes, update,
}

-- `udp_daytime_server`, with the outstanding receives and the datagrams that were sent.
pub record UdpDaytimeServer : Type 0 where
  pub remote_endpoint : ℕ
  pub receives : ℕ
  pub sends : List (ℕ × Bytes)

unfoldable pub start_receive : UdpDaytimeServer → UdpDaytimeServer
start_receive s = record s { receives = s.receives + 1 }

-- `now` is the text of `ctime`. The error of `send_to` is ignored.
unfoldable pub handle_receive : Bool → Bytes → UdpDaytimeServer → UdpDaytimeServer
unfolding start_receive
handle_receive ec now s =
    start_receive (if ec then s else record s { sends = s.sends ++ (s.remote_endpoint, now) ∷ [] })

unfoldable pub udp_daytime_server : UdpDaytimeServer
unfolding start_receive
udp_daytime_server = start_receive (record { remote_endpoint = 0; receives = 0; sends = [] })

pub data File : Type 0 where
  -- "/dev/null"
  null_device : File
  -- "/tmp/asio.daemon.out", for appending
  output : File
  -- what the process has open when it starts, and the descriptors of the library
  inherited : ℕ → File

abbrev pub Descriptors : Type 0
Descriptors = ℕ → Option File

pub data ForkEvent : Type 0 where
  fork_prepare fork_child : ForkEvent

-- The messages of `syslog`.
pub data Message : Type 0 where
  first_fork_failed second_fork_failed null_device_failed output_failed dup_failed : Message
  daemon_started : Message

pub record Process : Type 0 where
  pub descriptors : Descriptors
  pub session_leader : Bool
  pub in_root : Bool
  pub mask_cleared : Bool
  pub notified : List ForkEvent
  pub logged : List Message

-- What `fork` returns: 0 in the child, a positive number in the parent, a negative one when it fails.
pub data Fork : Type 0 where
  child parent failed : Fork

-- How `main` ends, or the process in which it runs the io_context.
pub data End : Type 0 where
  exits : ℕ → Process → End
  runs : Process → End

abbrev pub log : Message → Process → Process
log m p = record p { logged = p.logged ++ m ∷ [] }

abbrev pub notify_fork : ForkEvent → Process → Process
notify_fork e p = record p { notified = p.notified ++ e ∷ [] }

abbrev pub close : ℕ → Process → Process
close fd p = record p { descriptors = update p.descriptors fd none }

-- The descriptor that `open` or `dup` return stands for the file from then on.
abbrev pub opened : ℕ → Option File → Process → Process
opened fd file p = record p { descriptors = update p.descriptors fd file }

module _ (open_file : File → Descriptors → Option ℕ) (duplicate : ℕ → Descriptors → Option ℕ) where
  -- From `dup` to the end.
  unfoldable pub after_output : Process → End
  after_output p = elim (duplicate 1 p.descriptors) [
    | none ↦ exits 1 (log dup_failed p)
    | some fd ↦ runs (log daemon_started (notify_fork fork_child (opened fd (p.descriptors 1) p)))
  ]

  -- From the second `open` on.
  unfoldable pub open_output : Process → End
  unfolding after_output
  open_output p = elim (open_file output p.descriptors) [
    | none ↦ exits 1 (log output_failed p)
    | some fd ↦ after_output (opened fd (some output) p)
  ]

  -- From the first `open` on.
  unfoldable pub open_null : Process → End
  unfolding open_output
  open_null p = elim (open_file null_device p.descriptors) [
    | none ↦ exits 1 (log null_device_failed p)
    | some fd ↦ open_output (opened fd (some null_device) p)
  ]

  -- From the second fork on.
  unfoldable pub second_fork : Fork → Process → End
  unfolding open_null
  second_fork parent p = exits 0 p
  second_fork failed p = exits 1 (log second_fork_failed p)
  second_fork child p = open_null (close 2 (close 1 (close 0 p)))

  -- The body of `main`, from where the server was made up to where the io_context runs.
  unfoldable pub become_daemon : Fork → Fork → Process → End
  unfolding second_fork
  become_daemon parent second p = exits 0 (notify_fork fork_prepare p)
  become_daemon failed second p = exits 1 (log first_fork_failed (notify_fork fork_prepare p))
  become_daemon child second p = second_fork second (record (notify_fork fork_prepare p) {
    session_leader = true;
    in_root = true;
    mask_cleared = true;
  })
