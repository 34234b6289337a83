-- ===== src/Store/Output/Kept.antt =====
-- The bytes that the rows of a command keep under a limit, in `AppendOutput`.
use windmill_gate.Base.{
  ℕ, true, false, ◌||◌, List, [], ◌∷◌, ◌++◌, ◌-◌, ◌≤◌, ◌<◌, if◌then◌else◌, Bytes, equal, length,
  take, ltb, leb, ◌≡◌, refl, sym, ap, subst, arith, ◌∙◌, append_assoc, append-nil, length-take,
  take-append, take_all, length-append, Bool-cases, inl, inr,
}
use windmill_gate.Base.Rows.{select}
use windmill_gate.Store.{OutputRow}
use windmill_gate.Store.Output.{rows_of, used_bytes, any_truncated, output_row}

-- the bytes that are kept of a command, the rows in their order
unfoldable pub stored : List OutputRow → Bytes
stored [] = []
stored (r ∷ rs) = r.data_bytes ++ stored rs

pub rows_of-append :
    (id : Bytes) (rows : List OutputRow) (r : OutputRow)
    → rows_of id (rows ++ r ∷ [])
      ≡ rows_of id rows ++ (if equal r.command_id id then r ∷ [] else [])
unfolding rows_of select
rows_of-append id [] r = ground arith
rows_of-append id (s ∷ rows) r = ground (arith, rows_of-append id rows r)

pub stored-append :
    (rows : List OutputRow) (r : OutputRow) → stored (rows ++ r ∷ []) ≡ stored rows ++ r.data_bytes
unfolding stored
stored-append [] r = append-nil r.data_bytes
stored-append (s ∷ rows) r =
    ap (λ b. s.data_bytes ++ b) (stored-append rows r)
    ∙ sym (append_assoc s.data_bytes (stored rows) r.data_bytes)

pub used_bytes-stored : (rows : List OutputRow) → used_bytes rows ≡ length (stored rows)
unfolding used_bytes stored
used_bytes-stored [] = refl
used_bytes-stored (r ∷ rows) =
    omega (arith, used_bytes-stored rows, length-append r.data_bytes (stored rows))

pub any_truncated-append :
    (rows : List OutputRow) (r : OutputRow)
    → any_truncated (rows ++ r ∷ []) ≡ (any_truncated rows || r.truncated)
unfolding any_truncated
any_truncated-append [] r = ground arith
any_truncated-append (s ∷ rows) r = ground (arith, any_truncated-append rows r)

-- The rows of a command keep the first `limit` bytes of what was written of it.
pub record IsKept (limit : ℕ) (before : Bytes) (rows : List OutputRow) : Type 0 where
  pub kept : stored rows ≡ take limit before
  pub full : any_truncated rows ≡ true → limit ≤ length before

pub used-take :
    (limit : ℕ) (before : Bytes) (rows : List OutputRow)
    → IsKept limit before rows
    → used_bytes rows ≡ (if leb limit (length before) then limit else length before)
used-take limit before rows k = used_bytes-stored rows ∙ ap length k.kept ∙ length-take limit before

-- past the limit nothing is kept
pub past-IsKept :
    (limit : ℕ) (before more : Bytes) (rows : List OutputRow)
    → IsKept limit before rows
    → limit ≤ length before
    → IsKept limit (before ++ more) rows
past-IsKept limit before more rows k past =
    let none_left : limit - length before ≡ 0 = omega arith in
    record {
      kept =
          k.kept
          ∙ sym (
              take-append limit before more
              ∙ ap (λ n. take limit before ++ take n more) none_left
              ∙ append-nil (take limit before));
      full = λ _. omega (arith, length-append before more);
    }

pub row_takes :
    (now : ℕ) (id stream more : Bytes) (remaining : ℕ) (rows : List OutputRow)
    → (output_row now id stream more remaining rows).data_bytes ≡ take remaining more
unfolding output_row
row_takes now id stream more remaining rows = elim (Bool-cases (ltb remaining (length more))) [
  | inl more_left ↦ ground arith
  | inr fits ↦ ground (arith, take_all remaining more (ground arith))
]

-- below the limit a row takes what remains
pub below-IsKept :
    (limit : ℕ) (now : ℕ) (id stream before more : Bytes) (rows : List OutputRow)
    → IsKept limit before rows
    → length before < limit
    → IsKept limit
        (before ++ more)
        (rows ++ output_row now id stream more (limit - used_bytes rows) rows ∷ [])
unfolding output_row
below-IsKept limit now id stream before more rows k below =
    let used : used_bytes rows ≡ length before = ground (arith, used-take limit before rows k) in
    let row : OutputRow = output_row now id stream more (limit - used_bytes rows) rows in
    record {
      kept =
          stored-append rows row
          ∙ ap (λ b. b ++ row.data_bytes) k.kept
          ∙ ap (λ b. take limit before ++ b)
              (row_takes now id stream more (limit - used_bytes rows) rows)
          ∙ ap (λ n. take limit before ++ take (limit - n) more) used
          ∙ sym (take-append limit before more);
      full =
          λ cut. ground (arith, any_truncated-append rows row, k.full, length-append before more);
    }

pub full_before :
    (limit : ℕ) (before : Bytes) (rows : List OutputRow)
    → IsKept limit before rows
    → (any_truncated rows || leb limit (used_bytes rows)) ≡ true
    → limit ≤ length before
full_before limit before rows k full = ground (arith, k.full, used-take limit before rows k)

pub room_before :
    (limit : ℕ) (before : Bytes) (rows : List OutputRow)
    → IsKept limit before rows
    → (any_truncated rows || leb limit (used_bytes rows)) ≡ false
    → length before < limit
room_before limit before rows k room = ground (arith, used-take limit before rows k)

pub no_output : (limit : ℕ) (rows : List OutputRow) → rows ≡ [] → IsKept limit [] rows
unfolding stored any_truncated
no_output limit rows none_yet =
    subst (IsKept limit []) (sym none_yet)
      (record { kept = sym (take_all limit [] (omega arith)); full = λ cut. ground arith })
