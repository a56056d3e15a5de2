-- ===== src/Scrub.antt =====
-- src/scrub.rs: the scrubber, which checks every object of a container, repairs from replicas,
-- quarantines what it cannot repair and seals the result.
pub mod Settles
pub mod Healthy
mod Examples
use subnext.Prelude.{
  ℕ, ◌+◌, Bool, true, false, not, ◌&&◌, ◌||◌, Option, none, some, List, [], ◌∷◌, ◌++◌, length, take,
  if◌then◌else◌, ◌==◌,
}
use subnext.Prelude.Bytes.{codes, bytes_eq}
use subnext.Prelude.Dict.{get}
use subnext.Prelude.BTree.{keys}
use subnext.Prelude.Results.{Result, ok, err}
use subnext.Hash.Stream.{sha256}
use subnext.Hash.Hex.{to_hex, short}
use subnext.Spans.Slices.{decimal}
use subnext.Trust.{Signer, is_nil}
use subnext.Container.{Host, ContextError, Checkpoint}
use subnext.Container.Disk.{Disk, ContextStore, Machine, replica_copies}
use subnext.Container.Store.{proves, restore_object, quarantine}
use subnext.Container.Commit.{commit}

pub data AuditEvent : Type 0 where
  healthy_object : List ℕ → AuditEvent
  -- With the digest that was computed, in short; none for a file that is not there.
  corrupt_object : List ℕ → Option (List ℕ) → AuditEvent
  replica_rejected : List ℕ → List ℕ → AuditEvent
  repaired_object : List ℕ → List ℕ → AuditEvent
  quarantined_object : List ℕ → List ℕ → AuditEvent
  unrepairable_object : List ℕ → AuditEvent
  sealed : ℕ → AuditEvent

pub record ScrubOptions : Type 0 where
  pub repair : Bool
  pub quarantining : Bool
  pub sealing : Bool
  pub timestamp : ℕ

abbrev pub repairing : ℕ → ScrubOptions
repairing timestamp = record {
  repair = true;
  quarantining = true;
  sealing = true;
  timestamp = timestamp;
}

pub record ScrubReport : Type 0 where
  pub checked : ℕ
  pub healthy : ℕ
  pub corrupt_ids : List (List ℕ)
  pub repaired : List (List ℕ)
  pub quarantined_ids : List (List ℕ)
  pub unrepairable : List (List ℕ)
  pub replicas_configured : ℕ
  pub sealed_generation : Option ℕ
  pub events : List AuditEvent

unfoldable clean : ScrubReport → Bool
clean report = length report.corrupt_ids == length report.repaired

-- The container and the report that the scrubber changes.
pub record Scrubbed : Type 0 where
  pub machine : Machine
  pub report : ScrubReport

abbrev pub push : Scrubbed → AuditEvent → Scrubbed
push s event = record s { report = record s.report { events = s.report.events ++ (event ∷ []) } }

abbrev pub start : Machine → Scrubbed
start m = record {
  machine = m;
  report = record {
    checked = 0;
    healthy = 0;
    corrupt_ids = [];
    repaired = [];
    quarantined_ids = [];
    unrepairable = [];
    replicas_configured = length m.store.replicas;
    sealed_generation = none;
    events = [];
  };
}

-- The guard of the match on what was read.
abbrev pub is_healthy : Option (List ℕ) → List ℕ → Bool
is_healthy none id = false
is_healthy (some bytes) id = bytes_eq (to_hex (sha256 bytes)) id

abbrev computed : Option (List ℕ) → Option (List ℕ)
computed none = none
computed (some bytes) = some (short (sha256 bytes) 16)

pub note_checked : Scrubbed → Scrubbed
note_checked s = record s { report = record s.report { checked = s.report.checked + 1 } }

pub note_healthy : Scrubbed → List ℕ → Scrubbed
note_healthy s id =
    push (record s { report = record s.report { healthy = s.report.healthy + 1 } })
      (healthy_object id)

pub note_corrupt : Scrubbed → List ℕ → Option (List ℕ) → Scrubbed
note_corrupt s id found =
    push (record s { report = record s.report { corrupt_ids = s.report.corrupt_ids ++ (id ∷ []) } })
      (corrupt_object id (computed found))

pub note_unrepairable : Scrubbed → List ℕ → Scrubbed
note_unrepairable s id =
    push
      (record s { report = record s.report { unrepairable = s.report.unrepairable ++ (id ∷ []) } })
      (unrepairable_object id)

abbrev quarantine_text : List ℕ
quarantine_text = codes "failed integrity verification; no verified replica available"

-- `quarantine_notice`
quarantine_notice : List ℕ → ℕ → List ℕ
quarantine_notice id generation =
    codes "Object "
    ++ (take 12 id
        ++ (codes " failed integrity verification. "
            ++ (codes "Trusted replacement available: object "
                ++ (take 12 id ++ (codes "@gen" ++ (decimal generation ++ (b'.' ∷ [])))))))

-- What comes behind `?`.
abbrev pub and_then :
    Result ContextError (Unit {0}) × Scrubbed
    → (Scrubbed → Result ContextError (Unit {0}) × Scrubbed)
    → Result ContextError (Unit {0}) × Scrubbed
and_then (ok u, s) k = k s
and_then (err e, s) k = (err e, s)

module _ (host : Host) where
  -- The end of a repair, behind `restore_object`.
  abbrev pub repaired_by :
      Result ContextError (Unit {0}) × Machine
      → Scrubbed
      → List ℕ
      → List ℕ
      → Result ContextError Bool × Scrubbed
  repaired_by (ok u, m) s id source = (
    ok true,
    push
        (record {
          machine = m;
          report = record s.report { repaired = s.report.repaired ++ (id ∷ []) };
        })
        (repaired_object id source),
  )
  repaired_by (err e, m) s id source = (err e, record s { machine = m })

  -- The test that a copy has to pass.
  abbrev pub is_proved : Machine → List ℕ → List ℕ → Bool
  is_proved m id bytes = bytes_eq (to_hex (sha256 bytes)) id && proves m.store id (sha256 bytes)

  -- The loop of `repair_from_replica` over the copies.
  pub repair_loop : Scrubbed → List ℕ → List (List ℕ × List ℕ) → Result ContextError Bool × Scrubbed
  unfolding restore_object proves
  repair_loop s id [] = (ok false, s)
  repair_loop s id ((source, bytes) ∷ rest) =
      let later = repair_loop (push s (replica_rejected id source)) id rest in
      if is_proved s.machine id bytes
      then repaired_by (restore_object host s.machine id bytes) s id source
      else later

  pub repair_from_replica : Scrubbed → List ℕ → Result ContextError Bool × Scrubbed
  unfolding repair_loop replica_copies
  repair_from_replica s id = repair_loop s id (replica_copies s.machine id)

  -- An object that stays corrupt.
  pub give_up : ScrubOptions → Scrubbed → List ℕ → Scrubbed
  unfolding note_unrepairable quarantine
  give_up options s id =
      let s' = note_unrepairable s id in
      if options.quarantining
      then push
          (record {
            machine = (quarantine host s'.machine id quarantine_text).1;
            report = record s'.report { quarantined_ids = s'.report.quarantined_ids ++ (id ∷ []) };
          })
          (quarantined_object id quarantine_text)
      else s'

  abbrev pub after_repair :
      ScrubOptions
      → List ℕ
      → Result ContextError Bool × Scrubbed
      → Result ContextError (Unit {0}) × Scrubbed
  after_repair options id (ok true, s) = (ok tt, s)
  after_repair options id (ok false, s) = (ok tt, give_up options s id)
  after_repair options id (err e, s) = (err e, s)

  pub act : ScrubOptions → Scrubbed → List ℕ → Result ContextError (Unit {0}) × Scrubbed
  unfolding give_up repair_from_replica
  act options s id =
      after_repair options id (if options.repair then repair_from_replica s id else (ok false, s))

  -- The body of the loop.
  pub scrub_one : ScrubOptions → Scrubbed → List ℕ → Result ContextError (Unit {0}) × Scrubbed
  unfolding get note_checked note_healthy note_corrupt act
  scrub_one options s id =
      let found = get s.machine.disk.object_files id in
      let s' = note_checked s in
      if is_healthy found id
      then (ok tt, note_healthy s' id)
      else act options (note_corrupt s' id found) id

  pub scrub_all :
      ScrubOptions → List (List ℕ) → Scrubbed → Result ContextError (Unit {0}) × Scrubbed
  unfolding scrub_one
  scrub_all options [] s = (ok tt, s)
  scrub_all options (id ∷ ids) s =
      and_then (scrub_one options s id) (λ s'. scrub_all options ids s')

  abbrev pub record_seal :
      Result ContextError Checkpoint × Machine
      → Scrubbed
      → Result ContextError (Unit {0}) × Scrubbed
  record_seal (ok c, m) s = (
    ok tt,
    push
        (record { machine = m; report = record s.report { sealed_generation = some c.generation } })
        (sealed c.generation),
  )
  record_seal (err e, m) s = (err e, record s { machine = m })

  -- The seal, where the set of objects changed.
  pub seal_changes :
      ScrubOptions → Option Signer → Scrubbed → Result ContextError (Unit {0}) × Scrubbed
  unfolding commit
  seal_changes options signer s =
      if options.sealing && not (is_nil s.report.quarantined_ids)
      then record_seal (commit host s.machine options.timestamp signer) s
      else (ok tt, s)

  -- `scrub`, with the container and the report that it leaves, also where it fails.
  pub scrub : Machine → ScrubOptions → Option Signer → Result ContextError (Unit {0}) × Scrubbed
  unfolding scrub_all seal_changes keys
  scrub m options signer =
      and_then (scrub_all options (keys m.store.objects) (start m))
        (λ s. seal_changes options signer s)
