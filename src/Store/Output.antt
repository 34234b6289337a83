-- ===== src/Store/Output.antt =====
-- `AppendOutput` and `OutputPreview` of internal/storage/storage.go.
pub mod Kept
pub mod Relayed
use windmill_gate.Base.{
  ℕ, Bool, true, false, not, ◌&&◌, ◌||◌, List, [], ◌∷◌, ◌++◌, ◌+◌, ◌-◌, ◌*◌, zero, suc, any,
  if◌then◌else◌, Bytes, equal, is, length, take, ltb, leb, codes,
}
use windmill_gate.Base.Int.{ℤ, pos, negsuc}
use windmill_gate.Base.Rows.{select, order_by}
use windmill_gate.Base.Results.{Result, ok, err}
use windmill_gate.Store.{
  StoreError, bad_stream, bad_limit, constraint_failed, OutputRow, Tables, has_key, command_key,
}

-- `WHERE command_id = ?`
unfoldable pub rows_of : Bytes → List OutputRow → List OutputRow
unfolding select
rows_of id rows = select (λ r. equal r.command_id id) rows

-- `COALESCE(SUM(length(data)), 0)`
unfoldable pub used_bytes : List OutputRow → ℕ
used_bytes [] = 0
used_bytes (r ∷ rs) = length r.data_bytes + used_bytes rs

-- `COALESCE(MAX(truncated), 0)`
unfoldable pub any_truncated : List OutputRow → Bool
any_truncated rows = any (λ r. r.truncated) rows

-- `COALESCE(MAX(sequence), -1) + 1`
unfoldable pub next_sequence : List OutputRow → ℕ
next_sequence [] = 0
next_sequence (r ∷ rs) =
    let next = next_sequence rs in if ltb r.sequence next then next else suc r.sequence

-- what the row takes of the data, where something remains of the limit
unfoldable pub output_row : ℕ → Bytes → Bytes → Bytes → ℕ → List OutputRow → OutputRow
output_row now id stream data_bytes remaining rows = record {
  command_id = id;
  stream = stream;
  sequence = next_sequence rows;
  data_bytes = if ltb remaining (length data_bytes) then take remaining data_bytes else data_bytes;
  truncated = ltb remaining (length data_bytes);
  created_at = now;
}

-- the transaction, under a positive limit
unfoldable pub append_within :
    ℕ → Bytes → Bytes → Bytes → ℕ → Tables → Result StoreError ((Bytes × Bool) × Tables)
unfolding rows_of used_bytes any_truncated output_row
append_within now id stream data_bytes limit tables =
    let rows = rows_of id tables.output in
    let used = used_bytes rows in
    if any_truncated rows || leb limit used
    then ok (([], true), tables)
    else (let row = output_row now id stream data_bytes (limit - used) rows in
        if has_key command_key id tables.commands
        then ok
            ((row.data_bytes, row.truncated), record tables { output = tables.output ++ row ∷ [] })
        else err constraint_failed)

-- `AppendOutput`
unfoldable pub append_output :
    ℕ → Bytes → Bytes → Bytes → ℤ → Tables → Result StoreError ((Bytes × Bool) × Tables)
unfolding append_within
append_output now id stream data_bytes (negsuc n) tables =
    if is stream "stdout" || is stream "stderr" then err bad_limit else err bad_stream
append_output now id stream data_bytes (pos zero) tables =
    if is stream "stdout" || is stream "stderr" then err bad_limit else err bad_stream
append_output now id stream data_bytes (pos (suc n)) tables =
    if is stream "stdout" || is stream "stderr"
    then append_within now id stream data_bytes (suc n) tables
    else err bad_stream

-- one of the two buffers, filled with the rows of its stream
unfoldable pub fill : ℕ → (OutputRow → Bool) → Bytes → List OutputRow → Bytes
fill limit mine buffer [] = buffer
fill limit mine buffer (r ∷ rs) =
    let remaining = limit - length buffer in
    let filled =
      buffer
      ++ (if ltb remaining (length r.data_bytes)
          then take remaining r.data_bytes
          else r.data_bytes) in
    let skipped = fill limit mine buffer rs in
    let written = fill limit mine filled rs in
    if mine r then (if leb remaining 0 then skipped else written) else skipped

unfoldable pub preview_limit : ℤ → ℕ
preview_limit (negsuc n) = 4096
preview_limit (pos n) = if leb n 0 || ltb (64 * 1024) n then 4096 else n

-- `OutputPreview`: the two buffers do not share their limit
unfoldable pub output_preview : Bytes → ℤ → Tables → Bytes × Bytes
unfolding rows_of order_by fill preview_limit
output_preview id limit tables =
    let rows = order_by (λ r. r.sequence) (rows_of id tables.output) in
    let size = preview_limit limit in
    (
      fill size (λ r. not (is r.stream "stderr")) [] rows,
      fill size (λ r. is r.stream "stderr") [] rows,
    )
