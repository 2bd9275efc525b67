-- ===== src/Votes.antt =====
-- plenum/server/models.py: `TrackedMsgs` and its subclasses `Prepares`, `Commits` and
-- `InstanceChanges`. A tracked dictionary maps the key of a message to the set of its voters.
pub mod Laws
mod Tests
use plenum.Common.{
  ℕ, ◌+◌, ◌*◌, Bool, false, ◌&&◌, String, List, [], Option, none, some, leb, length, Eq, contains,
  add, string_eq,
}
use plenum.Common.Dict
use plenum.Common.Dict.{Dict, get_or}

pub record ThreePhaseVotes : Type 0 where
  pub voters : List String

pub record InsChgVotes : Type 0 where
  pub view_no : ℕ
  pub voters : List String

-- What a subclass of `TrackedMsgs` defines: `newVoteMsg`, `getKey`, and where the voters stand.
pub record Tracking (M K V : Type 0) : Type 0 where
  pub new_vote_msg : M → V
  pub get_key : M → K
  pub voters : V → List String
  pub with_voters : List String → V → V

module _ {M K V : Type 0} ⦃e : Eq K⦄ (t : Tracking M K V) where
  unfoldable pub add_msg : M → String → Dict K V → Dict K V
  add_msg msg voter d =
      let votes = get_or (Dict.get (t.get_key msg) d) (t.new_vote_msg msg) in
      Dict.set (t.get_key msg) (t.with_voters (add voter (t.voters votes)) votes) d

  unfoldable pub has_msg : M → Dict K V → Bool
  has_msg msg d = Dict.has_key (t.get_key msg) d

  unfoldable pub has_vote : M → String → Dict K V → Bool
  has_vote msg voter d = elim (Dict.get (t.get_key msg) d) [
    | none ↦ false
    | some v ↦ contains (t.voters v) voter
  ]

  unfoldable pub has_enough_votes : M → ℕ → Dict K V → Bool
  unfolding has_msg
  has_enough_votes msg count d = has_msg msg d && elim (Dict.get (t.get_key msg) d) [
    | none ↦ false
    | some v ↦ leb count (length (t.voters v))
  ]

-- `Prepares` and `Commits`: a message is given by its view number and sequence number.
abbrev pub three_phase : Tracking (ℕ × ℕ) (ℕ × ℕ) ThreePhaseVotes
three_phase = record {
  new_vote_msg = λ msg. record { voters = [] };
  get_key = λ msg. msg;
  voters = λ v. v.voters;
  with_voters = λ names v. record { voters = names };
}

-- `InstanceChanges`: a message is given by its view number.
abbrev pub instance_changes : Tracking ℕ ℕ InsChgVotes
instance_changes = record {
  new_vote_msg = λ view_no. record { view_no = view_no; voters = [] };
  get_key = λ view_no. view_no;
  voters = λ v. v.voters;
  with_voters = λ names v. record { view_no = v.view_no; voters = names };
}

-- `Prepares.hasQuorum`
abbrev pub prepare_quorum : ℕ → ℕ
prepare_quorum f = 2 * f

-- `Commits.hasQuorum` and `InstanceChanges.hasQuorum`
abbrev pub commit_quorum : ℕ → ℕ
commit_quorum f = 2 * f + 1
