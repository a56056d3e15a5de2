-- ===== src/Container/Examples.antt =====
-- src/context_store.rs: a container with a note, on a host whose numbers are natural.
use subnext.Prelude.{
  min, ℕ, ◌+◌, ◌-◌, ◌*◌, ◌≡◌, refl, ◌⊎◌, true, false, Option, none, some, List, [], ◌∷◌, map, foldl,
  length, ltb, All, arith,
}
use subnext.Prelude.Bytes.{codes, cmp_bytes}
use subnext.Prelude.Dict.{get}
use subnext.Prelude.Results.{ok, err}
use subnext.Hash.Stream.{
  sha256, finalize, words_bytes, update_raw, pad_zeros, update, whole_blocks, fill_block,
  flush_full, write_byte,
}
use subnext.Hash.Words.{compress}
use subnext.Hash.Tagged.{tagged, update_parts}
use subnext.Hash.Hex.{to_hex, parse_hex, parse_pairs}
use subnext.Json.{str, as_bool, string_list}
use subnext.Merkle.{empty_root, sorted_leaves, root, last_first, build, build_levels}
use subnext.Nodes.{join_comma}
use subnext.Json.Canonical.{write_canonical}
use subnext.Json.Write.{write}
use subnext.Spans.Slices.{decimal}
use subnext.Trust.{
  Signer, Admitted, backup_signing, default_policy, label_parse, policy_hash, schema_hash, unsigned,
  trusted,
}
use subnext.Trust.Admission.{IsAdmissible}
use subnext.Container.{
  Host, ObjectRecord, new_record, document, kind_as_str, kind_parse, Checkpoint, chain_broken,
}
use subnext.Container.Format.{compute_chain, canonical_bytes, body_bytes, zero_digest}
use subnext.Container.Chain.{verify_chain, tip, HistoriesCollide, Sized, history_binding}
use subnext.Container.Disk.{Disk, Machine, write_manifest, write_hwm}
use subnext.Container.Store.{stamped, put_record, admit_object, candidate_of}
use subnext.Container.Commit.{commit, next_checkpoint}
use subnext.Container.Open.{create, new_store, open_store}
use subnext.Container.Intact.{Settled}
use subnext.Container.History.{IsConsistent, stays, goes, putting, committing, created-Reaches}
use subnext.Container.ReadBack.{ReadBack, put_record-ReadBack}
use subnext.Container.Gate.{gateway_of, admit_object-IsAdmissible}

abbrev read_digits : List ℕ → Option ℕ
read_digits text = some (foldl (λ n c. n * 10 + (c - b'0')) 0 text)

abbrev host : Host
host = record {
  floats = record {
    is_small_integer = λ n. true;
    show_integer = decimal;
    show = λ n. [];
    read = read_digits;
    is_finite = λ n. true;
  };
  of_u64 = λ n. n;
  to_u64 = λ n. n;
  encode = λ s. s;
  decode = λ s. some s;
}

abbrev blank : Disk
blank = record {
  manifest_file = none;
  hwm = none;
  object_files = [];
  sidecars = [];
  checkpoint_files = [];
  signatures = [];
  quarantine_files = [];
  reasons = [];
  copies = [];
}

abbrev note : ObjectRecord
note = new_record document (codes "note") (str (codes "hi"))

created : Machine
created = record {
  store = new_store (codes "me");
  disk = write_hwm host 0 (write_manifest host (new_store (codes "me")).manifest blank);
}

created-create : create host (codes "me") blank ≡ ok created
unfolding create created
created-create = refl

abbrev noted : Machine
noted = (put_record host created note).1

abbrev committed : Machine
committed = (commit host noted 7 none).1

created-Reaches_example :
    IsConsistent host committed.store
    × (verify_chain host committed.store.checkpoints ≡ ok tt)
    × ((j : List ℕ) → Settled committed j)
created-Reaches_example =
    created-Reaches host (codes "me") blank created committed created-create
      (goes (goes (stays created) (putting created note)) (committing noted 7 none))

abbrev backup_signer : Signer
backup_signer = record {
  key_id = record { role = backup_signing; id = codes "b" };
  sign = λ message. [];
  is_cryptographic = false;
}

abbrev unsealed : Machine
unsealed = record created { store = record created.store { pending = (codes "x", tt) ∷ [] } }

abbrev id_of_note : List ℕ
id_of_note = to_hex (sha256 (canonical_bytes host (record note { created_by = codes "me" })))

abbrev note_read : ObjectRecord
note_read = record note { created_by = codes "me"; generation = 1 }

abbrev note_admitted : Admitted
note_admitted = record {
  object_id = id_of_note;
  verification = unsigned;
  label = trusted;
  generation = 1;
}

admitted : admit_object host noted id_of_note none ≡ ok (note_read, note_admitted)
unfolding admit_object put_record created new_store write_hwm write_manifest cmp_bytes to_hex
    compress sha256 write_canonical sorted_leaves kind_as_str kind_parse label_parse as_bool
    string_list
admitted = refl

admit_object-IsAdmissible_example :
    (bytes : List ℕ) × (get noted.disk.object_files id_of_note ≡ some bytes)
    × (to_hex (sha256 bytes) ≡ id_of_note)
    × IsAdmissible
        (gateway_of host noted none)
        (candidate_of host noted id_of_note bytes note_read)
        note_admitted
    × (noted.store.policy.require_signature ≡ false)
    × (note_admitted.verification ≡ unsigned)
admit_object-IsAdmissible_example =
    admit_object-IsAdmissible host noted id_of_note none note_read note_admitted admitted

note_put : (put_record host created note).0 ≡ ok id_of_note
unfolding put_record created new_store
note_put = refl

put_record-ReadBack_example :
    (to_hex (sha256 (canonical_bytes host (stamped created.store note))) ≡ id_of_note)
    × ReadBack created noted id_of_note (canonical_bytes host (stamped created.store note))
put_record-ReadBack_example =
    put_record-ReadBack host created note id_of_note
      (λ j.
        (created-Reaches host (codes "me") blank created created created-create (stays created)).2
          j)
      note_put

-- A host on which large numbers are rounded, as they are in an `f64`: two timestamps read as one.
abbrev rounding_host : Host
rounding_host = record host { of_u64 = λ n. min n 8 }

abbrev sealed_at : ℕ → Checkpoint
sealed_at timestamp = next_checkpoint rounding_host (new_store (codes "me")) timestamp

abbrev early : List Checkpoint
early = sealed_at 20 ∷ []

abbrev late : List Checkpoint
late = sealed_at 30 ∷ []

early-chain : verify_chain rounding_host early ≡ ok tt
unfolding verify_chain next_checkpoint new_store cmp_bytes empty_root to_hex compress tagged
    finalize words_bytes update_raw pad_zeros update whole_blocks fill_block flush_full write_byte
    update_parts write_canonical sorted_leaves write decimal root sha256 join_comma policy_hash
    default_policy schema_hash last_first build build_levels
early-chain = refl

late-chain : verify_chain rounding_host late ≡ ok tt
unfolding verify_chain next_checkpoint new_store cmp_bytes empty_root to_hex compress tagged
    finalize words_bytes update_raw pad_zeros update whole_blocks fill_block flush_full write_byte
    update_parts write_canonical sorted_leaves write decimal root sha256 join_comma policy_hash
    default_policy schema_hash last_first build build_levels
late-chain = refl

early-short : ltb (length (body_bytes rounding_host (sealed_at 20))) 4096 ≡ true
unfolding body_bytes next_checkpoint new_store cmp_bytes empty_root to_hex compress tagged finalize
    words_bytes update_raw pad_zeros update whole_blocks fill_block flush_full write_byte
    update_parts write_canonical sorted_leaves write decimal root sha256 join_comma policy_hash
    default_policy schema_hash last_first build build_levels
early-short = refl

late-short : ltb (length (body_bytes rounding_host (sealed_at 30))) 4096 ≡ true
unfolding body_bytes next_checkpoint new_store cmp_bytes empty_root to_hex compress tagged finalize
    words_bytes update_raw pad_zeros update whole_blocks fill_block flush_full write_byte
    update_parts write_canonical sorted_leaves write decimal root sha256 join_comma policy_hash
    default_policy schema_hash last_first build build_levels
late-short = refl

parent-zero : (timestamp : ℕ) → (sealed_at timestamp).parent_chain ≡ zero_digest
unfolding next_checkpoint new_store
parent-zero timestamp = refl

early-Sized : All (Sized rounding_host) early
early-Sized = ((rw (parent-zero 20) (omega arith), ground (arith, early-short)), tt)

late-Sized : All (Sized rounding_host) late
late-Sized = ((rw (parent-zero 30) (omega arith), ground (arith, late-short)), tt)

one_tip : tip rounding_host none early ≡ tip rounding_host none late
unfolding tip next_checkpoint compute_chain body_bytes
one_tip = refl

history_binding_example :
    (map (body_bytes rounding_host) early ≡ map (body_bytes rounding_host) late)
    ⊎ HistoriesCollide rounding_host early late
history_binding_example =
    history_binding rounding_host early late early-chain late-chain early-Sized late-Sized refl
      one_tip

-- A signer of another role is refused behind the write of the checkpoint, and the container does not
-- open again.
reopened :
    open_store host (commit host unsealed 7 (some backup_signer)).1.disk ≡ err (chain_broken 1)
unfolding open_store commit created new_store write_hwm write_manifest cmp_bytes to_hex compress
    empty_root decimal tagged finalize words_bytes update_raw pad_zeros update whole_blocks
    fill_block flush_full write_byte update_parts sha256 join_comma policy_hash default_policy
    schema_hash write_canonical sorted_leaves write root parse_hex parse_pairs last_first build
    build_levels string_list
reopened = refl
