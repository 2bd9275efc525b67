-- ===== src/Ledger/Sample.antt =====
-- A ledger for tests: its tree is the list of its transactions, and its root hash says whether they
-- are consecutive numbers.
use plenum.Common.{
  ℕ, ◌+◌, refl, String, List, [], ◌∷◌, ◌++◌, length, arith, length-append, ltb, if◌then◌else◌, ◌==◌,
  nat_eq,
}
use plenum.Ledger.{Base}
use plenum.Ledger.Tracking.{Laws}

abbrev pub text_root : List ℕ → String
text_root [] = "in order"
text_root (x ∷ []) = "in order"
text_root (x ∷ y ∷ ys) = if y == x + 1 then text_root (y ∷ ys) else "out of order"

abbrev pub list_base : Base (List ℕ) (List ℕ) ℕ
list_base = record {
  size = λ l. length l;
  tree = λ l. l;
  append = λ x l. l ++ x ∷ [];
  grow = λ x t. t ++ x ∷ [];
  root_hash = text_root;
  is_truthy = λ t. ltb 0 (length t);
}

pub list_base-Laws : Laws list_base
list_base-Laws = record {
  size-append = λ x l. length-append l (x ∷ []);
  tree-append = λ x l. refl;
  truthy-grow = λ x t. ground (arith, length-append t (x ∷ []));
}
