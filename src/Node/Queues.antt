-- ===== src/Node/Queues.antt =====
-- The queues that the messages of other nodes go to.
use plenum.Common.{
  ℕ, zero, suc, ◌<◌, ◌≡◌, refl, ap, ◌∙◌, Bool, true, false, not, ◌&&◌, String, List, [], ◌∷◌, ◌++◌,
  Option, none, some, length, ltb, arith, ◌==◌, nat_eq, inl, inr, Bool-cases, get_elem?, set_elem,
  keep, if◌then◌else◌,
}
use mathlib.Core.List.{append_assoc}
use plenum.Common.Dict
use plenum.Common.Dict.{Dict, get_or}
use plenum.Node.{
  MsgKind, election_kind, three_phase_kind, other_kind, NodeMsg, Deque, Node, valid_number,
}

abbrev pub is_election : MsgKind → Bool
is_election election_kind = true
is_election _ = false

abbrev pub is_three_phase : MsgKind → Bool
is_three_phase three_phase_kind = true
is_three_phase _ = false

abbrev pub is_other : MsgKind → Bool
is_other other_kind = true
is_other _ = false

abbrev pub is_at : ℕ → Option ℕ → Bool
is_at i none = false
is_at i (some j) = j == i

abbrev pub is_below : ℕ → Option ℕ → Bool
is_below count none = false
is_below count (some j) = ltb j count

-- Which messages the elector gets, which the replica of an instance, and which wait for an instance
-- that is not there yet, for a number of instances.
abbrev pub for_elector : ℕ → NodeMsg × String → Bool
for_elector count x = is_election x.0.kind && is_below count (valid_number x.0.inst_id)

abbrev pub for_replica : ℕ → ℕ → NodeMsg × String → Bool
for_replica count i x = is_three_phase x.0.kind && is_at i (valid_number x.0.inst_id) && ltb i count

abbrev pub for_later : ℕ → ℕ → NodeMsg × String → Bool
for_later count i x =
    not (is_other x.0.kind) && is_at i (valid_number x.0.inst_id) && not (ltb i count)

module _ {W : Type 0} where
  abbrev pub replica_queue : ℕ → Node W → Deque
  replica_queue i n = get_or (get_elem? n.msgs_to_replicas i) []

  abbrev pub later_queue : ℕ → Node W → Deque
  later_queue i n = get_or (Dict.get i n.msgs_for_future_replicas) []

-- Messages went to the ends of their queues, and to no other.
pub record IsDelivered {W : Type 0} (n n' : Node W) (xs : Deque) : Type 0 where
  pub same_view : n'.view_no ≡ n.view_no
  pub same_count : length n'.msgs_to_replicas ≡ length n.msgs_to_replicas
  pub to_elector :
      n'.msgs_to_elector ≡ n.msgs_to_elector ++ keep (for_elector (length n.msgs_to_replicas)) xs
  pub to_replicas :
      (i : ℕ)
      → replica_queue i n'
        ≡ replica_queue i n ++ keep (for_replica (length n.msgs_to_replicas) i) xs
  pub to_later :
      (i : ℕ)
      → later_queue i n' ≡ later_queue i n ++ keep (for_later (length n.msgs_to_replicas) i) xs

keep-append :
    (p : NodeMsg × String → Bool) (xs ys : Deque) → keep p (xs ++ ys) ≡ keep p xs ++ keep p ys
keep-append p [] ys = refl
keep-append p (x ∷ xs) ys = elim (Bool-cases (p x)) [
  | inl kept ↦ rw (kept, keep-append p xs ys) refl
  | inr dropped ↦ rw (dropped, keep-append p xs ys) refl
]

-- queues that grow twice
grow_twice :
    (q q' q'' : Deque) (p : NodeMsg × String → Bool) (xs ys : Deque)
    → q' ≡ q ++ keep p xs
    → q'' ≡ q' ++ keep p ys
    → q'' ≡ q ++ keep p (xs ++ ys)
grow_twice q q' q'' p xs ys h k =
    rw (keep-append p xs ys)
      (k ∙ ap (λ a. a ++ keep p ys) h ∙ append_assoc q (keep p xs) (keep p ys))

pub length-set_elem : (qs : List Deque) (i : ℕ) (q : Deque) → length (set_elem qs i q) ≡ length qs
length-set_elem [] i q = refl
length-set_elem (r ∷ qs) zero q = refl
length-set_elem (r ∷ qs) (suc i) q = omega (arith, length-set_elem qs i q)

pub get_elem-set_elem :
    (qs : List Deque) (i j : ℕ) (q : Deque)
    → i < length qs
    → get_elem? (set_elem qs i q) j ≡ (if i == j then some q else get_elem? qs j)
get_elem-set_elem [] i j q h = absurd (omega arith)
get_elem-set_elem (r ∷ qs) zero zero q h = ground arith
get_elem-set_elem (r ∷ qs) zero (suc j) q h = ground arith
get_elem-set_elem (r ∷ qs) (suc i) zero q h = ground arith
get_elem-set_elem (r ∷ qs) (suc i) (suc j) q h =
    ground (arith, get_elem-set_elem qs i j q (omega arith))

pub get_elem_below :
    (qs : List Deque) (i : ℕ) → i < length qs → (q : Deque) × (get_elem? qs i ≡ some q)
get_elem_below [] i h = absurd (omega arith)
get_elem_below (r ∷ qs) zero h = (r, refl)
get_elem_below (r ∷ qs) (suc i) h = get_elem_below qs i (omega arith)

module _ {W : Type 0} where
  pub IsDelivered-trans :
      {n m n' : Node W} {xs ys : Deque}
      → IsDelivered n m xs
      → IsDelivered m n' ys
      → IsDelivered n n' (xs ++ ys)
  IsDelivered-trans {n = n} {m = m} {n' = n'} {xs = xs} {ys = ys} h k = record {
    same_view = k.same_view ∙ h.same_view;
    same_count = k.same_count ∙ h.same_count;
    to_elector =
        grow_twice n.msgs_to_elector m.msgs_to_elector n'.msgs_to_elector _ xs ys h.to_elector
          (rw h.same_count at k.to_elector);
    to_replicas = λ i.
        grow_twice (replica_queue i n) (replica_queue i m) (replica_queue i n') _ xs ys
          (h.to_replicas i) (rw h.same_count at (k.to_replicas i));
    to_later = λ i.
        grow_twice (later_queue i n) (later_queue i m) (later_queue i n') _ xs ys (h.to_later i)
          (rw h.same_count at (k.to_later i));
  }
