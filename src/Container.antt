-- ===== src/Container.antt =====
-- src/context_store.rs: the data of the container. A digest is its bytes, and the text of a record is its
-- list of characters. An error carries the values of the source's error without the message.
pub mod Format
pub mod Front
pub mod Chain
pub mod Disk
pub mod Store
pub mod Commit
pub mod Open
pub mod Intact
pub mod History
pub mod Gate
pub mod ReadBack
mod Examples
use subnext.Prelude.{ℕ, Bool, true, false, Option, none, List, [], ◌∷◌}
use subnext.Prelude.Bytes.{codes}
use subnext.Json.{Floats, Json}
use subnext.Trust.{Verification, TrustLabel, trusted, KeyId, Rejection, find_name}

-- What the container uses of the language: the numbers of JSON, `as f64` and `as u64`, and UTF-8.
pub record Host : Type 0 where
  pub floats : Floats
  pub of_u64 : ℕ → ℕ
  pub to_u64 : ℕ → ℕ
  pub encode : List ℕ → List ℕ
  pub decode : List ℕ → Option (List ℕ)

abbrev pub format_version_now : ℕ
format_version_now = 1

pub data ContextError : Type 0 where
  io_error : ContextError
  parse_error : ContextError
  corrupt : List ℕ → ContextError
  chain_broken : ℕ → ContextError
  rollback : ℕ → ℕ → ContextError
  refused : List ℕ → Rejection → ContextError
  missing : List ℕ → ContextError
  immutable : List ℕ → ContextError

pub data ObjectKind : Type 0 where
  document span node edge usage : ObjectKind

abbrev pub all_kinds : List ObjectKind
all_kinds = document ∷ span ∷ node ∷ edge ∷ usage ∷ []

unfoldable pub kind_as_str : ObjectKind → List ℕ
kind_as_str document = codes "document"
kind_as_str span = codes "span"
kind_as_str node = codes "node"
kind_as_str edge = codes "edge"
kind_as_str usage = codes "usage"

unfoldable pub kind_parse : List ℕ → Option ObjectKind
unfolding find_name kind_as_str
kind_parse text = find_name kind_as_str all_kinds text

pub record ObjectRecord : Type 0 where
  pub kind : ObjectKind
  pub logical_id : List ℕ
  pub generation : ℕ
  pub label : TrustLabel
  pub derived : Bool
  pub source_objects : List (List ℕ)
  pub created_by : List ℕ
  pub body : Json

abbrev pub new_record : ObjectKind → List ℕ → Json → ObjectRecord
new_record kind logical_id body = record {
  kind = kind;
  logical_id = logical_id;
  generation = 0;
  label = trusted;
  derived = false;
  source_objects = [];
  created_by = [];
  body = body;
}

abbrev pub derived_from : ObjectRecord → List (List ℕ) → ObjectRecord
derived_from r sources = record r { derived = true; source_objects = sources }

abbrev labelled : ObjectRecord → TrustLabel → ObjectRecord
labelled r label = record r { label = label }

pub record ObjectMeta : Type 0 where
  pub hash : List ℕ
  pub size : ℕ
  pub generation : ℕ
  pub verification : Verification
  pub locations : List (List ℕ)

pub record Checkpoint : Type 0 where
  pub schema : List ℕ
  pub generation : ℕ
  pub merkle_root : List ℕ
  pub parent_root : List ℕ
  pub chain : List ℕ
  pub parent_chain : List ℕ
  pub timestamp : ℕ
  pub policy_hash : List ℕ
  pub schema_hash : List ℕ
  pub object_count : ℕ
  pub added : List (List ℕ)

pub record Manifest : Type 0 where
  pub format_version : ℕ
  pub agent_id : List ℕ
  pub root_hash : List ℕ
  pub highest_generation : ℕ
  pub encryption_key_id : Option KeyId
  pub signing_key_id : Option KeyId
  pub signing_is_cryptographic : Bool
  pub schema_hash : List ℕ
  pub policy_hash : List ℕ
  pub created_at : ℕ
