-- ===== src/Wav/Read.antt =====
-- What `wav_get_data_direct` of mlvfs/wav.c reads is the part of the header and of the joined
-- audio frames that was asked for.
use mlvfs.Base.{
  ℕ, ◌+◌, ◌-◌, min, ◌≤◌, ◌≡◌, refl, sym, ap, ◌∙◌, inl, inr, true, false, some, List, ◌++◌, length,
  drop, ltb, ◌==◌, arith, Bool-cases, ltb→lt, All, Bytes, slice, length-slice, write_at,
  write_at-write_at, slice-append_right, slice-append_left, slice-append_across, length-append,
}
use mlvfs.Index.Encode.{Xref}
use mlvfs.Wav.Round.{IsAudio, audio}
use mlvfs.Wav.{Progress, deliver, pad, rest_of, wav_get_data_direct}
use mlvfs.Wav.Delivered.{Delivered, wav_rounds-Delivered}

wav_get_data_direct_rest :
    (chunks : List Bytes) (xrefs : List Xref) (stack : Bytes) (p : Progress)
    → Delivered chunks xrefs stack 0 p
    → rest_of chunks xrefs stack p
      ≡ some (
          write_at p.output p.output_position
            (slice (audio chunks xrefs) p.read_offset p.remaining))
unfolding Delivered rest_of write_at
wav_get_data_direct_rest chunks xrefs stack p d =
    let (q, e, z, w) = d in
    let o : p.read_offset - 0 ≡ p.read_offset = omega arith in
    let none_left : ltb q.output_position q.remaining ≡ false = ground arith in
    let padded : pad q ≡ q.output = unfold pad in rw none_left refl in
    rw (e, rest_of) (ap some (padded ∙ (rw o at w)))

module _ (header : Bytes) (chunks : List Bytes) (xrefs : List Xref) (stack output : Bytes)
    (offset n : ℕ) (ok : All (IsAudio chunks) xrefs)
    (inside : offset + n ≤ length header + length (audio chunks xrefs)) where
  delivers :
      wav_get_data_direct header chunks xrefs stack output offset n
      ≡ some (write_at output 0 (slice (header ++ audio chunks xrefs) offset n))
  unfolding wav_get_data_direct deliver
  delivers =
      let A = audio chunks xrefs in
      elim (Bool-cases (ltb offset (length header))) [
        | inl h ↦ elim (Bool-cases (ltb (length header - offset) n)) [
          | inl m ↦
              let this = length header - offset in
              let lt = ltb→lt _ _ h in
              let lt' = ltb→lt _ _ m in
              let k : min this n ≡ this = omega arith in
              let z : (n - this == 0) ≡ false = ground arith in
              let o : offset + this - length header ≡ 0 = omega arith in
              let len : 0 + this ≡ 0 + length (slice header offset this) =
                omega (arith, length-slice header offset this (omega arith)) in
              let p : Progress = record {
                output = write_at output 0 (slice header offset this);
                output_position = 0 + this;
                read_offset = 0;
                remaining = n - this;
              } in
              let d =
                wav_rounds-Delivered chunks xrefs stack 0 p ok (omega arith) (omega arith)
                  (omega arith) in
              rw (h, k, z, o)
                (wav_get_data_direct_rest chunks xrefs stack p d
                  ∙ ap (λ (i : ℕ). some (write_at p.output i (slice A 0 (n - this)))) len
                  ∙ ap some
                      (write_at-write_at output 0 (slice header offset this) (slice A 0 (n - this)))
                  ∙ ap (λ (bs : Bytes). some (write_at output 0 bs))
                      (sym (slice-append_across header A offset n (omega arith) (omega arith))))
          | inr m ↦
              let k : min (length header - offset) n ≡ n = ground arith in
              let z : (n - n == 0) ≡ true = ground arith in
              rw (h, k, z)
                (ap (λ (bs : Bytes). some (write_at output 0 bs))
                  (sym (slice-append_left header A offset n (ground arith))))
        ]
        | inr h ↦ elim (Bool-cases (n == 0)) [
          | inl m ↦ let z : n ≡ 0 = ground arith in rw (h, m, z) (unfold slice write_at in refl)
          | inr m ↦
              let p : Progress = record {
                output = output;
                output_position = 0;
                read_offset = offset - length header;
                remaining = n;
              } in
              let out : length header ≤ offset = ground arith in
              let d =
                wav_rounds-Delivered chunks xrefs stack 0 p ok (omega arith) (ground arith)
                  (omega arith) in
              rw (h, m)
                (wav_get_data_direct_rest chunks xrefs stack p d
                  ∙ ap (λ (bs : Bytes). some (write_at output 0 bs))
                      (sym (slice-append_right header A offset n out)))
        ]
      ]

  -- Where the index's AUDF blocks are whole and the range lies in the header and the audio
  -- behind it, the buffer starts with exactly these bytes, however they fall on the frames, and
  -- is unchanged behind them.
  pub wav_get_data_direct_lem :
      wav_get_data_direct header chunks xrefs stack output offset n
      ≡ some (slice (header ++ audio chunks xrefs) offset n ++ drop n output)
  unfolding write_at
  wav_get_data_direct_lem =
      let all = header ++ audio chunks xrefs in
      let len : length (slice all offset n) ≡ n =
        length-slice all offset n (omega (arith, length-append header (audio chunks xrefs))) in
      delivers ∙ ap (λ (k : ℕ). some (slice all offset n ++ drop k output)) len
