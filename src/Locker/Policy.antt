-- ===== src/Locker/Policy.antt =====
-- src/locker/policy.rs: how a locker is configured.
use crossbank.Prelude.{ℕ, ◌*◌, Bool, true, false, ◌&&◌, Option, none, some, ◌==◌, max}
use crossbank.Backend.Api.{Durability}
use crossbank.Codec.Chain.{FilterChain}

pub data Policy : Type 0 where
  precious : Policy
  evictable : ℕ → Policy

pub data OnCorrupt : Type 0 where
  fail skip : OnCorrupt

pub data Commit : Type 0 where
  immediate : Commit
  deferred : ℕ → Commit

pub record LockerConfig : Type 0 where
  pub max_inline : ℕ
  pub eager_budget : ℕ
  pub policy : Policy
  pub commit : Commit
  pub durability : Durability
  pub on_corrupt : OnCorrupt
  pub chunk_size : ℕ
  pub chain : Option FilterChain

-- `LockerConfig::default`
abbrev pub default_config : LockerConfig
default_config = record {
  max_inline = 256 * 1024;
  eager_budget = 32 * 1024 * 1024;
  policy = precious;
  commit = Commit.immediate;
  durability = Durability.immediate;
  on_corrupt = fail;
  chunk_size = 256 * 1024;
  chain = none;
}

unfoldable with_max_inline : LockerConfig → ℕ → LockerConfig
with_max_inline c bytes = record c { max_inline = bytes }

unfoldable with_eager_budget : LockerConfig → ℕ → LockerConfig
with_eager_budget c bytes = record c { eager_budget = bytes }

unfoldable with_policy : LockerConfig → Policy → LockerConfig
with_policy c policy = record c { policy = policy }

unfoldable with_commit : LockerConfig → Commit → LockerConfig
with_commit c commit = record c { commit = commit }

unfoldable with_durability : LockerConfig → Durability → LockerConfig
with_durability c durability = record c { durability = durability }

unfoldable with_on_corrupt : LockerConfig → OnCorrupt → LockerConfig
with_on_corrupt c on_corrupt = record c { on_corrupt = on_corrupt }

unfoldable with_chunk_size : LockerConfig → ℕ → LockerConfig
with_chunk_size c bytes = record c { chunk_size = max bytes 1 }

unfoldable with_chain : LockerConfig → FilterChain → LockerConfig
with_chain c chain = record c { chain = some chain }

eventual_eq : Durability → Bool
eventual_eq Durability.immediate = false
eventual_eq Durability.eventual = true

unfoldable is_eventual : LockerConfig → Bool
unfolding eventual_eq
is_eventual c = eventual_eq c.durability

id_of : Option FilterChain → Option ℕ
id_of none = none
id_of (some chain) = some chain.id

unfoldable pub chain_id : LockerConfig → Option ℕ
unfolding id_of
chain_id c = id_of c.chain

unfoldable policy_eq : Policy → Policy → Bool
policy_eq precious precious = true
policy_eq (evictable a) (evictable b) = a == b
policy_eq _ _ = false

unfoldable commit_eq : Commit → Commit → Bool
commit_eq Commit.immediate Commit.immediate = true
commit_eq (deferred a) (deferred b) = a == b
commit_eq _ _ = false

unfoldable durability_eq : Durability → Durability → Bool
durability_eq Durability.immediate Durability.immediate = true
durability_eq Durability.eventual Durability.eventual = true
durability_eq _ _ = false

unfoldable pub on_corrupt_eq : OnCorrupt → OnCorrupt → Bool
on_corrupt_eq fail fail = true
on_corrupt_eq skip skip = true
on_corrupt_eq _ _ = false

unfoldable chain_id_eq : Option ℕ → Option ℕ → Bool
chain_id_eq none none = true
chain_id_eq (some a) (some b) = a == b
chain_id_eq _ _ = false

-- `PartialEq` of the configurations: two chains compare by their ids.
unfoldable config_eq : LockerConfig → LockerConfig → Bool
unfolding policy_eq commit_eq durability_eq on_corrupt_eq chain_id_eq
config_eq a b =
    a.max_inline == b.max_inline
    && a.eager_budget == b.eager_budget
    && policy_eq a.policy b.policy
    && commit_eq a.commit b.commit
    && durability_eq a.durability b.durability
    && on_corrupt_eq a.on_corrupt b.on_corrupt
    && a.chunk_size == b.chunk_size
    && chain_id_eq (chain_id a) (chain_id b)
