-- ===== src/Gate/Audit.antt =====
-- `auditWriter` of internal/gate/service.go: it stores the output of a command and relays to the
-- agent what the store returned. Whether the event sink takes a call is an argument.
pub mod Bounds
use windmill_gate.Base.{
  ℕ, zero, suc, Bool, true, false, not, ◌&&◌, List, [], ◌∷◌, ◌++◌, ◌*◌, Option, none, some,
  if◌then◌else◌, Bytes, codes, is_some, length, take, drop,
}
use windmill_gate.Base.Int.{ℤ}
use windmill_gate.Base.Results.{Result, ok, err}
use windmill_gate.Store.{StoreError, Tables}
use windmill_gate.Store.Output.{append_output}

pub data AuditError : Type 0 where
  store_failed : StoreError → AuditError
  sink_failed : AuditError

pub record AuditWriter : Type 0 where
  pub stream : Bytes
  pub error : Option AuditError
  pub marker_delivered : Bool

-- The store, and the calls of `sink.Output` so far, the latest first.
pub record Relay : Type 0 where
  pub tables : Tables
  pub sent : List (Bytes × Bytes)

-- the chunks of 32 KiB; each takes at least a byte, so that the length is enough fuel
unfoldable pub chunks_from : ℕ → Bytes → List Bytes
chunks_from fuel [] = []
chunks_from zero (b ∷ bs) = []
chunks_from (suc fuel) (b ∷ bs) =
    take (32 * 1024) (b ∷ bs) ∷ chunks_from fuel (drop (32 * 1024) (b ∷ bs))

unfoldable pub chunks : Bytes → List Bytes
unfolding chunks_from
chunks data_bytes = chunks_from (length data_bytes) data_bytes

abbrev pub marker : Bytes
marker = b'\n' ∷ codes "[gate: output truncated]" ++ b'\n' ∷ []

module _ (accepts : List (Bytes × Bytes) → Bool) where
  -- `w.sink.Output`
  unfoldable pub deliver : Bytes → AuditWriter × Relay → AuditWriter × Relay
  deliver bytes (w, r) =
      let sent = (w.stream, bytes) ∷ r.sent in
      (
        record w { error = if accepts sent then w.error else some sink_failed },
        record r { sent = sent },
      )

  unfoldable pub deliver_stored : Bytes → AuditWriter × Relay → AuditWriter × Relay
  unfolding deliver
  deliver_stored [] x = x
  deliver_stored (b ∷ bs) x = deliver (b ∷ bs) x

  -- after a failed call the loop has returned
  unfoldable pub deliver_marker : Bool → AuditWriter × Relay → AuditWriter × Relay
  unfolding deliver
  deliver_marker truncated (w, r) =
      if not (is_some w.error) && truncated && not w.marker_delivered
      then deliver marker (record w { marker_delivered = true }, r)
      else (w, r)

  -- one round of the loop of `Write`
  unfoldable pub write_chunk : ℕ → Bytes → ℤ → Bytes → AuditWriter × Relay → AuditWriter × Relay
  unfolding deliver_stored deliver_marker
  write_chunk now id limit chunk (w, r) = elim w.error [
    | some _ ↦ (w, r)
    | none ↦ elim (append_output now id w.stream chunk limit r.tables) [
      | err e ↦ (record w { error = some (store_failed e) }, r)
      | ok ((stored, truncated), tables) ↦
          deliver_marker truncated (deliver_stored stored (w, record r { tables = tables }))
    ]
  ]

  unfoldable pub write_chunks :
      ℕ → Bytes → ℤ → List Bytes → AuditWriter × Relay → AuditWriter × Relay
  unfolding write_chunk
  write_chunks now id limit [] x = x
  write_chunks now id limit (c ∷ cs) x = write_chunks now id limit cs (write_chunk now id limit c x)

  written : ℕ → AuditWriter → Result AuditError ℕ
  written size w = elim w.error [ none ↦ ok size | some e ↦ err e ]

  -- `Write`, with what it returns
  unfoldable pub write :
      ℕ → Bytes → ℤ → Bytes → AuditWriter × Relay → Result AuditError ℕ × (AuditWriter × Relay)
  unfolding chunks write_chunks written
  write now id limit data_bytes x =
      let after = write_chunks now id limit (chunks data_bytes) x in
      (written (length data_bytes) after.0, after)

-- The two writers of a command, which share the store and the sink.
pub record Writers : Type 0 where
  pub stdout : AuditWriter
  pub stderr : AuditWriter
  pub relay : Relay

-- as `executeLocked` makes them
unfoldable pub start_writers : Tables → Writers
start_writers tables = record {
  stdout = record { stream = codes "stdout"; error = none; marker_delivered = false };
  stderr = record { stream = codes "stderr"; error = none; marker_delivered = false };
  relay = record { tables = tables; sent = [] };
}

-- A call of `Write` on one of the two.
pub data Written : Type 0 where
  on_stdout on_stderr : ℕ → Bytes → Written

-- what the backend's calls leave
unfoldable pub write_all :
    (List (Bytes × Bytes) → Bool) → Bytes → ℤ → List Written → Writers → Writers
unfolding write
write_all accepts id limit [] s = s
write_all accepts id limit (on_stdout now bytes ∷ calls) s =
    let (w, r) = (write accepts now id limit bytes (s.stdout, s.relay)).1 in
    write_all accepts id limit calls (record s { stdout = w; relay = r })
write_all accepts id limit (on_stderr now bytes ∷ calls) s =
    let (w, r) = (write accepts now id limit bytes (s.stderr, s.relay)).1 in
    write_all accepts id limit calls (record s { stderr = w; relay = r })
