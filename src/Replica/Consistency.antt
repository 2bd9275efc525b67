-- ===== src/Replica/Consistency.antt =====
-- The invariant of a replica, over the part of its state that the protocol's safety rests on.
pub mod Frames
pub mod Steps
pub mod Batches
pub mod Ordering
pub mod Handlers
pub mod Dispatching
pub mod Reached
use plenum.Common.{
  ℕ, zero, suc, ◌+◌, ◌≤◌, ◌≡◌, refl, Bool, true, false, String, List, [], ◌∷◌, ◌++◌, Option, none,
  some, All, Distinct, contains, map, nat_eq, string_eq, pair_eq, arith, ap, ◌∙◌,
}
use mathlib.Core.List.{append-nil}
use plenum.Common.Dict.{Dict}
use plenum.Messages.{ThreePhaseKey, PrePrepare, Ordered}
use plenum.Votes.{ThreePhaseVotes}
use plenum.Replica.{
  Replica, OutMsg, three_phase_msg, ordered_msg, checkpoint_msg, reject_msg, exception_msg,
}

-- The keys of the Ordered messages in the outbox.
unfoldable pub ordered_keys : List OutMsg → List ThreePhaseKey
ordered_keys [] = []
ordered_keys (ordered_msg o ∷ out) = (o.view_no, o.pp_seq_no) ∷ ordered_keys out
ordered_keys (three_phase_msg m ∷ out) = ordered_keys out
ordered_keys (checkpoint_msg c ∷ out) = ordered_keys out
ordered_keys (reject_msg r ∷ out) = ordered_keys out
ordered_keys (exception_msg e ∷ out) = ordered_keys out

pub record Core : Type 0 where
  pub log_size : ℕ
  pub low : ℕ
  pub high : ℕ
  pub sent_pre_prepares : Dict ThreePhaseKey PrePrepare
  pub pre_prepares : Dict ThreePhaseKey PrePrepare
  pub prepares : Dict ThreePhaseKey ThreePhaseVotes
  pub commits : Dict ThreePhaseKey ThreePhaseVotes
  pub ordered : List ThreePhaseKey
  pub last_ordered_pp_seq_no : ℕ
  pub announced : List ThreePhaseKey

module _ {W : Type 0} where
  abbrev pub core : Replica W → Core
  core s = record {
    log_size = s.config.log_size;
    low = s.low;
    high = s.high;
    sent_pre_prepares = s.sent_pre_prepares;
    pre_prepares = s.pre_prepares;
    prepares = s.prepares;
    commits = s.commits;
    ordered = s.ordered;
    last_ordered_pp_seq_no = s.last_ordered_pp_seq_no;
    announced = ordered_keys s.out_box;
  }

  abbrev pub OnCore : (Core → Type 0) → Replica W → Type 0
  OnCore P s = P (core s)

-- A PRE-PREPARE stands under its own view number and sequence number.
abbrev pub IsKeyed : ThreePhaseKey × PrePrepare → Type 0
IsKeyed entry = entry.0 ≡ (entry.1.view_no, entry.1.pp_seq_no)

abbrev pub HasDistinctVoters : ThreePhaseKey × ThreePhaseVotes → Type 0
HasDistinctVoters entry = Distinct entry.1.voters

pub record IsConsistent (c : Core) : Type 0 where
  -- the high water mark stands the size of the log above the low one
  pub marks : c.high ≡ c.low + c.log_size
  pub sent_keyed : All IsKeyed c.sent_pre_prepares
  pub received_keyed : All IsKeyed c.pre_prepares
  -- nobody's vote counts twice
  pub prepare_voters : All HasDistinctVoters c.prepares
  pub commit_voters : All HasDistinctVoters c.commits
  pub ordered_distinct : Distinct c.ordered
  pub ordered_bound : All (λ k. k.1 ≤ c.last_ordered_pp_seq_no) c.ordered
  -- no batch is announced as ordered twice, and what is announced was ordered
  pub announced_once : Distinct c.announced
  pub announced_ordered : All (λ k. contains c.ordered k ≡ true) c.announced

pub ordered_keys-append :
    (xs ys : List OutMsg) → ordered_keys (xs ++ ys) ≡ ordered_keys xs ++ ordered_keys ys
unfolding ordered_keys
ordered_keys-append [] ys = refl
ordered_keys-append (ordered_msg o ∷ xs) ys =
    ap (λ l. (o.view_no, o.pp_seq_no) ∷ l) (ordered_keys-append xs ys)
ordered_keys-append (three_phase_msg m ∷ xs) ys = ordered_keys-append xs ys
ordered_keys-append (checkpoint_msg c ∷ xs) ys = ordered_keys-append xs ys
ordered_keys-append (reject_msg r ∷ xs) ys = ordered_keys-append xs ys
ordered_keys-append (exception_msg e ∷ xs) ys = ordered_keys-append xs ys

-- What is put into the outbox without an Ordered message among it announces nothing.
pub ordered_keys_quiet :
    (xs ys : List OutMsg) → ordered_keys ys ≡ [] → ordered_keys (xs ++ ys) ≡ ordered_keys xs
ordered_keys_quiet xs ys h =
    ordered_keys-append xs ys ∙ ap (◌++◌ (ordered_keys xs)) h ∙ append-nil (ordered_keys xs)
