-- ===== src/Gate/Audit/Bounds.antt =====
-- How much of a command's output `auditWriter` hands to the agent.
use windmill_gate.Base.{
  ℕ, zero, suc, Bool, true, false, not, ◌&&◌, ◌||◌, List, [], ◌∷◌, ◌++◌, ◌*◌, ◌+◌, ◌-◌, ◌≤◌, ◌≡◌,
  some, if◌then◌else◌, Bytes, is_some, leb, length, refl, arith, Bool-cases, Option-cases, inl, inr,
  equal_refl, length-take, ap, subst, ◌∙◌,
}
use windmill_gate.Base.Int.{pos}
use windmill_gate.Base.Results.{ok, Result-cases}
use windmill_gate.Store.{Tables, OutputRow}
use windmill_gate.Store.Output.{
  append_output, append_within, rows_of, used_bytes, output_row, any_truncated,
}
use windmill_gate.Store.Output.Kept.{rows_of-append, row_takes}
use windmill_gate.Gate.Audit.{
  store_failed, AuditWriter, Relay, marker, deliver, deliver_stored, deliver_marker, write_chunk,
  write_chunks, write, chunks, Writers, start_writers, Written, on_stdout, on_stderr, write_all,
}

unfoldable pub used_of : Bytes → Tables → ℕ
unfolding rows_of used_bytes
used_of id tables = used_bytes (rows_of id tables.output)

unfoldable pub handed : List (Bytes × Bytes) → ℕ
handed [] = 0
handed ((stream, bytes) ∷ sent) = length bytes + handed sent

abbrev pub marked : AuditWriter → ℕ
marked w = if w.marker_delivered then length marker else 0

used_bytes-append :
    (rows : List OutputRow) (r : OutputRow)
    → used_bytes (rows ++ r ∷ []) ≡ used_bytes rows + length r.data_bytes
unfolding used_bytes
used_bytes-append [] r = omega arith
used_bytes-append (s ∷ rows) r = omega (arith, used_bytes-append rows r)

-- What one call of the store adds to what it keeps of the command.
record IsAdded (id : Bytes) (limit : ℕ) (tables : Tables) (sent : Bytes) (tables' : Tables)
    : Type 0 where
  grows : used_of id tables' ≡ used_of id tables + length sent
  fits : used_of id tables ≤ limit → used_of id tables' ≤ limit

IsAdded-unchanged : (id : Bytes) (limit : ℕ) (tables : Tables) → IsAdded id limit tables [] tables
IsAdded-unchanged id limit tables = record { grows = omega arith; fits = λ h. h }

IsAdded-row :
    (now : ℕ) (id stream more : Bytes) (limit : ℕ) (tables : Tables)
    → let rows = rows_of id tables.output in
      let row = output_row now id stream more (limit - used_bytes rows) rows in
      IsAdded id limit tables row.data_bytes (record tables { output = tables.output ++ row ∷ [] })
unfolding used_of output_row
IsAdded-row now id stream more limit tables =
    let rows = rows_of id tables.output in
    let left = limit - used_bytes rows in
    let row = output_row now id stream more left rows in
    let mine : rows_of id (tables.output ++ row ∷ []) ≡ rows ++ row ∷ [] =
      ground (arith, rows_of-append id tables.output row, equal_refl id) in
    let grows = ap used_bytes mine ∙ used_bytes-append rows row in
    let size = ap length (row_takes now id stream more left rows) ∙ length-take left more in
    record { grows = grows; fits = λ h. ground (arith, grows, size) }

append_within-IsAdded :
    (now : ℕ) (id stream more : Bytes) (limit : ℕ) (tables tables' : Tables) (reply : Bytes × Bool)
    → append_within now id stream more limit tables ≡ ok (reply, tables')
    → IsAdded id limit tables reply.0 tables'
unfolding append_within
append_within-IsAdded now id stream more limit tables tables' reply h =
    elim (Bool-cases (
      any_truncated (rows_of id tables.output)
      || leb limit (used_bytes (rows_of id tables.output)))) [
        | inl full ↦
            let same : tables ≡ tables' = ground arith in
            let nothing : [] ≡ reply.0 = ground arith in
            subst (λ b. IsAdded id limit tables b tables') nothing
              (subst (IsAdded id limit tables []) same (IsAdded-unchanged id limit tables))
        | inr room ↦
            let rows = rows_of id tables.output in
            let row = output_row now id stream more (limit - used_bytes rows) rows in
            let same : record tables { output = tables.output ++ row ∷ [] } ≡ tables' =
              ground arith in
            let taken : row.data_bytes ≡ reply.0 = ground arith in
            subst (λ b. IsAdded id limit tables b tables') taken
              (subst (IsAdded id limit tables row.data_bytes) same
                (IsAdded-row now id stream more limit tables))
      ]

append_output-IsAdded :
    (now : ℕ) (id stream more : Bytes) (n : ℕ) (tables tables' : Tables) (reply : Bytes × Bool)
    → append_output now id stream more (pos n) tables ≡ ok (reply, tables')
    → IsAdded id n tables reply.0 tables'
unfolding append_output
append_output-IsAdded now id stream more zero tables tables' reply h = ground arith
append_output-IsAdded now id stream more (suc n) tables tables' reply h =
    append_within-IsAdded now id stream more (suc n) tables tables' reply (ground arith)

-- What a writer hands over is what the store keeps more, and its marker.
record IsPaid (id : Bytes) (limit : ℕ) (x x' : AuditWriter × Relay) : Type 0 where
  balance :
      handed x'.1.sent + used_of id x.1.tables + marked x.0
      ≡ handed x.1.sent + used_of id x'.1.tables + marked x'.0
  fits : used_of id x.1.tables ≤ limit → used_of id x'.1.tables ≤ limit

IsPaid-trans :
    (id : Bytes) (limit : ℕ) (x y z : AuditWriter × Relay)
    → IsPaid id limit x y
    → IsPaid id limit y z
    → IsPaid id limit x z
IsPaid-trans id limit x y z p q = record {
  balance = omega (arith, p.balance, q.balance);
  fits = λ h. q.fits (p.fits h);
}

module _ (accepts : List (Bytes × Bytes) → Bool) (id : Bytes) (limit : ℕ) where
  deliver_marker-IsPaid :
      (truncated : Bool) (x : AuditWriter × Relay)
      → IsPaid id limit x (deliver_marker accepts truncated x)
  unfolding deliver_marker deliver handed
  deliver_marker-IsPaid truncated (w, r) =
      elim (Bool-cases (not (is_some w.error) && truncated && not w.marker_delivered)) [
        | inl marks ↦
            let x' = deliver accepts marker (record w { marker_delivered = true }, r) in
            let same : x' ≡ deliver_marker accepts truncated (w, r) = ground arith in
            let unmarked : w.marker_delivered ≡ false = ground arith in
            subst (IsPaid id limit (w, r)) same
              (record { balance = ground (arith, unmarked); fits = λ h. h })
        | inr silent ↦
            let same : (w, r) ≡ deliver_marker accepts truncated (w, r) = ground arith in
            subst (IsPaid id limit (w, r)) same (record { balance = refl; fits = λ h. h })
      ]

  deliver_stored-IsPaid :
      (bytes : Bytes) (w : AuditWriter) (r : Relay) (tables : Tables)
      → IsAdded id limit r.tables bytes tables
      → IsPaid id limit (w, r) (deliver_stored accepts bytes (w, record r { tables = tables }))
  unfolding deliver_stored deliver handed
  deliver_stored-IsPaid [] w r tables a = record { balance = omega (arith, a.grows); fits = a.fits }
  deliver_stored-IsPaid (b ∷ bs) w r tables a = record {
    balance = omega (arith, a.grows);
    fits = a.fits;
  }

module _ (accepts : List (Bytes × Bytes) → Bool) (now : ℕ) (id : Bytes) (limit : ℕ) where
  write_chunk-IsPaid :
      (chunk : Bytes) (x : AuditWriter × Relay)
      → IsPaid id limit x (write_chunk accepts now id (pos limit) chunk x)
  unfolding write_chunk
  write_chunk-IsPaid chunk (w, r) = elim (Option-cases w.error) [
    | inr (e, failed) ↦
        let same : (w, r) ≡ write_chunk accepts now id (pos limit) chunk (w, r) = ground arith in
        subst (IsPaid id limit (w, r)) same (record { balance = refl; fits = λ h. h })
    | inl fine ↦ elim (Result-cases (append_output now id w.stream chunk (pos limit) r.tables)) [
      | inr (e, failed) ↦
          let same : (record w { error = some (store_failed e) }, r)
              ≡ write_chunk accepts now id (pos limit) chunk (w, r) =
            ground arith in
          subst (IsPaid id limit (w, r)) same (record { balance = refl; fits = λ h. h })
      | inl ((reply, tables), done) ↦
          let a = append_output-IsAdded now id w.stream chunk limit r.tables tables reply done in
          let middle = deliver_stored accepts reply.0 (w, record r { tables = tables }) in
          let last = deliver_marker accepts reply.1 middle in
          let same : last ≡ write_chunk accepts now id (pos limit) chunk (w, r) = ground arith in
          subst (IsPaid id limit (w, r)) same (
            IsPaid-trans id limit (w, r) middle last
              (deliver_stored-IsPaid accepts id limit reply.0 w r tables a)
              (deliver_marker-IsPaid accepts id limit reply.1 middle))
    ]
  ]

  write_chunks-IsPaid :
      (cs : List Bytes) (x : AuditWriter × Relay)
      → IsPaid id limit x (write_chunks accepts now id (pos limit) cs x)
  unfolding write_chunks
  write_chunks-IsPaid [] x = record { balance = refl; fits = λ h. h }
  write_chunks-IsPaid (c ∷ cs) x =
      IsPaid-trans id limit x _ _ (write_chunk-IsPaid c x) (write_chunks-IsPaid cs _)

write-IsPaid :
    (accepts : List (Bytes × Bytes) → Bool) (now : ℕ) (id : Bytes) (limit : ℕ) (bytes : Bytes)
    (x : AuditWriter × Relay)
    → IsPaid id limit x (write accepts now id (pos limit) bytes x).1
unfolding write
write-IsPaid accepts now id limit bytes x =
    write_chunks-IsPaid accepts now id limit (chunks bytes) x

-- The two writers of a command pay together.
record IsSettled (id : Bytes) (limit : ℕ) (s s' : Writers) : Type 0 where
  balance :
      handed s'.relay.sent + used_of id s.relay.tables + (marked s.stdout + marked s.stderr)
      ≡ handed s.relay.sent + used_of id s'.relay.tables + (marked s'.stdout + marked s'.stderr)
  fits : used_of id s.relay.tables ≤ limit → used_of id s'.relay.tables ≤ limit

write_all-IsSettled :
    (accepts : List (Bytes × Bytes) → Bool) (id : Bytes) (limit : ℕ) (calls : List Written)
    (s : Writers)
    → IsSettled id limit s (write_all accepts id (pos limit) calls s)
unfolding write_all
write_all-IsSettled accepts id limit [] s = record { balance = refl; fits = λ h. h }
write_all-IsSettled accepts id limit (on_stdout now bytes ∷ calls) s =
    let x = (write accepts now id (pos limit) bytes (s.stdout, s.relay)).1 in
    let p = write-IsPaid accepts now id limit bytes (s.stdout, s.relay) in
    let q = write_all-IsSettled accepts id limit calls (record s { stdout = x.0; relay = x.1 }) in
    record { balance = omega (arith, p.balance, q.balance); fits = λ h. q.fits (p.fits h) }
write_all-IsSettled accepts id limit (on_stderr now bytes ∷ calls) s =
    let x = (write accepts now id (pos limit) bytes (s.stderr, s.relay)).1 in
    let p = write-IsPaid accepts now id limit bytes (s.stderr, s.relay) in
    let q = write_all-IsSettled accepts id limit calls (record s { stderr = x.0; relay = x.1 }) in
    record { balance = omega (arith, p.balance, q.balance); fits = λ h. q.fits (p.fits h) }

marked_le : (w : AuditWriter) → marked w ≤ length marker
marked_le w = ground arith

-- Where the store keeps at most `limit` bytes of a command, stored or unknown to it, before its
-- writers start: whatever the backend writes to the two streams, in any order and at any size, and
-- whichever calls of the sink fail, the store keeps at most `limit` bytes of it after, and what is
-- handed to the agent is at most `limit` bytes and one truncation marker for each stream.
pub write_all-bounded :
    (accepts : List (Bytes × Bytes) → Bool) (id : Bytes) (limit : ℕ) (calls : List Written)
    (tables : Tables)
    → used_of id tables ≤ limit
    → let after = (write_all accepts id (pos limit) calls (start_writers tables)).relay in
      (used_of id after.tables ≤ limit) × (handed after.sent ≤ limit + 2 * length marker)
unfolding start_writers handed
write_all-bounded accepts id limit calls tables fits =
    let s = start_writers tables in
    let last = write_all accepts id (pos limit) calls s in
    let p = write_all-IsSettled accepts id limit calls s in
    let stored = p.fits fits in
    let out = marked_le last.stdout in
    let err = marked_le last.stderr in (stored, omega (arith, p.balance, stored, out, err))
