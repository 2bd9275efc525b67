-- ===== src/Replica/Behaviour/Collection.antt =====
-- What the garbage collection behind a stable checkpoint forgets, and what it keeps.
use plenum.Common.{
  ℕ, ◌≡◌, Bool, ◌&&◌, ◌||◌, List, [], ◌∷◌, ◌++◌, none, leb, if◌then◌else◌, contains,
  contains-append, Bool-cases, inl, inr, arith, nat_eq, pair_eq, ◌==◌, eq→path, ap,
}
use plenum.Common.Dict
use plenum.Common.Dict.{Dict, keys}
use plenum.Messages.{ReqKey, ThreePhaseKey}
use plenum.Replica.{Replica, ◌>>=◌, for_each}
use plenum.Replica.Rules.{Keeps, keeps_rules}
use plenum.Replica.Stash.{del_all, till_keys, forget, release_request, gc}
use plenum.Replica.Consistency.{Core, core, OnCore}
use plenum.Replica.Consistency.Frames.{release_request-OnCore}

get-del_all :
    {V : Type 0} (ks : List ThreePhaseKey) (key : ThreePhaseKey) (d : Dict ThreePhaseKey V)
    → Dict.get key (del_all ks d) ≡ (if contains ks key then none else Dict.get key d)
unfolding del_all Dict.get
get-del_all ks key [] = ground arith
get-del_all ks key ((k, v) ∷ d) = elim (Bool-cases (k == key)) [
  | inl same ↦ ground (arith, get-del_all ks key d, ap (contains ks) (eq→path k key same))
  | inr other ↦ ground (arith, get-del_all ks key d)
]

contains-till_keys :
    {V : Type 0} (till : ℕ) (key : ThreePhaseKey) (d : Dict ThreePhaseKey V)
    → contains (till_keys till d) key ≡ leb key.1 till && Dict.has_key key d
unfolding till_keys Dict.has_key Dict.get
contains-till_keys till key [] = ground arith
contains-till_keys till key ((k, v) ∷ d) = elim (Bool-cases (k == key)) [
  | inl same ↦
      ground (arith, contains-till_keys till key d, ap (λ i. leb i.1 till) (eq→path k key same))
  | inr other ↦ ground (arith, contains-till_keys till key d)
]

module _ {W : Type 0} (till : ℕ) (key : ThreePhaseKey) (s : Replica W) where
  -- The garbage collection reaches the key: its number is not above `till`, and its PRE-PREPARE was
  -- sent or received.
  abbrev pub is_collected : Bool
  is_collected =
      leb key.1 till && (Dict.has_key key s.sent_pre_prepares || Dict.has_key key s.pre_prepares)

  -- What is left of the key after the collection, by what was there before.
  pub record IsCollected (c : Core) : Type 0 where
    pub sent :
        Dict.get key c.sent_pre_prepares
        ≡ (if leb key.1 till then none else Dict.get key s.sent_pre_prepares)
    pub received :
        Dict.get key c.pre_prepares ≡ (if leb key.1 till then none else Dict.get key s.pre_prepares)
    pub prepares :
        Dict.get key c.prepares ≡ (if is_collected then none else Dict.get key s.prepares)
    pub commits : Dict.get key c.commits ≡ (if is_collected then none else Dict.get key s.commits)

  collected_keys : List ThreePhaseKey
  collected_keys = till_keys till s.sent_pre_prepares ++ till_keys till s.pre_prepares

  contains-collected_keys : contains collected_keys key ≡ is_collected
  unfolding collected_keys
  contains-collected_keys =
      let sent = till_keys till s.sent_pre_prepares in
      let received = till_keys till s.pre_prepares in
      ground (
        arith,
        contains-append sent received key,
        contains-till_keys till key s.sent_pre_prepares,
        contains-till_keys till key s.pre_prepares,
      )

  forget-IsCollected : IsCollected (core (forget collected_keys s))
  unfolding forget Dict.has_key
  forget-IsCollected =
      let e = contains-collected_keys in
      let ks = collected_keys in
      record {
        sent = ground (arith, e, get-del_all ks key s.sent_pre_prepares);
        received = ground (arith, e, get-del_all ks key s.pre_prepares);
        prepares = ground (arith, e, get-del_all ks key s.prepares);
        commits = ground (arith, e, get-del_all ks key s.commits);
      }

  releases :
      (keys : List ReqKey) → Keeps {W = W} (OnCore IsCollected) (for_each keys release_request)
  releases keys = search (keeps_rules, release_request-OnCore)

  -- However it ends, `gc` leaves no PRE-PREPARE up to the number, and neither the PREPAREs nor the
  -- COMMITs of one that it removed; and it keeps those of every other key.
  pub gc-IsCollected : IsCollected (core (gc till s).1)
  unfolding gc collected_keys ◌>>=◌
  gc-IsCollected = (releases _).at (forget collected_keys s) forget-IsCollected
