-- ===== src/Http/Tribool.antt =====
-- `boost::tribool`, by the three values that the code tests and returns.
pub data Tribool : Type 0 where
  true false indeterminate : Tribool
