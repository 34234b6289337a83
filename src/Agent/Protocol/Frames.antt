-- ===== src/Agent/Protocol/Frames.antt =====
-- What is encoded is decoded.
use windmill_gate.Base.{
  suc, ◌+◌, Bool, true, false, not, ◌&&◌, [], ◌∷◌, ◌++◌, Option, none, some, ◌==◌, ltb,
  if◌then◌else◌, Bytes, has_byte, is_empty, length, ◌≡◌, refl, ap, sym, ◌∙◌, arith, Option-cases,
  inl, inr, append_assoc,
}
use windmill_gate.Base.Results.{Result, ok, err}
use windmill_gate.Agent.Protocol.{
  ProtocolError, frame_too_long, end_of_file, malformed, max_frame_size, read_line, read_frame,
  decode, encode,
}

read_line-line :
    (line rest : Bytes)
    → has_byte b'\n' line ≡ false
    → read_line (line ++ b'\n' ∷ rest) ≡ (line, true, rest)
unfolding read_line has_byte
read_line-line [] rest h = refl
read_line-line (c ∷ cs) rest h =
    let later = read_line-line cs rest (ground arith) in
    ap (λ r. if c == b'\n' then ([], true, cs ++ b'\n' ∷ rest) else (c ∷ r.0, r.1, r.2)) later
    ∙ ground arith

read_frame-line :
    (line rest : Bytes)
    → has_byte b'\n' line ≡ false
    → ltb max_frame_size (length line + 1) ≡ false
    → read_frame (line ++ b'\n' ∷ rest) ≡ ok (line, rest)
unfolding read_frame
read_frame-line line rest h fits =
    let whole = read_line-line line rest h in ap split whole ∙ ground arith
  where
    split : Bytes × Bool × Bytes → Result ProtocolError (Bytes × Bytes)
    split (l, ended, left) =
        if ltb max_frame_size (if ended then suc (length l) else length l)
        then err frame_too_long
        else if not ended && is_empty l
        then err end_of_file
        else ok (l, left)

decode-frame :
    {A : Type 0} (parse : Bytes → Option A) (marshal : A → Option Bytes) (input text rest : Bytes)
    (a : A)
    → read_frame input ≡ ok (text, rest)
    → parse text ≡ some a
    → decode parse marshal input ≡ ok (a, rest)
unfolding decode
decode-frame parse marshal input text rest a read parsed =
    ap
      (λ r. elim r [
        | err e ↦ err e
        | ok (frame, left) ↦ elim (parse frame) [ none ↦ err malformed | some b ↦ ok (b, left) ]
      ])
      read
    ∙ ap (λ o. elim o [ none ↦ err malformed | some b ↦ ok (b, rest) ]) parsed

-- Where `json.Marshal` writes no newline and `json.Unmarshal` reads back what it wrote, a value
-- that is encoded is decoded from the front of any input, with the rest left unread.
pub decode-encode :
    {A : Type 0} (parse : Bytes → Option A) (marshal : A → Option Bytes)
    (no_newline : (a : A) (text : Bytes) → marshal a ≡ some text → has_byte b'\n' text ≡ false)
    (reads_back : (a : A) (text : Bytes) → marshal a ≡ some text → parse text ≡ some a) (a : A)
    (frame rest : Bytes)
    → encode parse marshal a ≡ ok frame
    → decode parse marshal (frame ++ rest) ≡ ok (a, rest)
unfolding encode decode
decode-encode parse marshal no_newline reads_back a frame rest h = elim (Option-cases (marshal a)) [
  | inl failed ↦ ground arith
  | inr (text, done) ↦
      let fits : ltb max_frame_size (length text + 1) ≡ false = ground arith in
      let same : text ++ b'\n' ∷ [] ≡ frame = ground arith in
      let input : frame ++ rest ≡ text ++ b'\n' ∷ rest =
        ap (λ f. f ++ rest) (sym same) ∙ append_assoc text (b'\n' ∷ []) rest in
      let read = read_frame-line text rest (no_newline a text done) fits in
      ap (decode parse marshal) input
      ∙ decode-frame parse marshal (text ++ b'\n' ∷ rest) text rest a read (reads_back a text done)
]
