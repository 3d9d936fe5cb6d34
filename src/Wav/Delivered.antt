-- ===== src/Wav/Delivered.antt =====
-- The loop over the index in `wav_get_data_direct` of mlvfs/wav.c: what all its rounds deliver.
use mlvfs.Base.{
  ℕ, ◌+◌, ◌-◌, ◌≤◌, ◌<◌, ◌≡◌, refl, sym, ap, ◌∙◌, inl, inr, true, false, some, List, [], ◌∷◌, ◌++◌,
  length, ltb, ◌==◌, arith, Bool-cases, ltb→lt, All, Bytes, slice, length-slice, write_at,
  write_at-write_at, slice-append_right, slice-append_left, slice-append_across, length-append,
}
use mlvfs.Index.Block.{mlv_frame_audf}
use mlvfs.Index.Encode.{Xref}
use mlvfs.Wav.Round.{
  frame_size, sound, IsFrame, chunk_of, IsAudio, audio, wav_round-skip, file, hdr', size,
  length-sound, wav_round-before, wav_round-last, wav_round-part,
}
use mlvfs.Wav.{Progress, next, done, deliver, wav_round, wav_rounds}

wav_rounds-next :
    (chunks : List Bytes) (x : Xref) (xs : List Xref) (hdr : Bytes) (pos : ℕ) (p : Progress)
    (h : Bytes) (pos' : ℕ) (p' : Progress)
    → wav_round chunks x hdr pos p ≡ next h pos' p'
    → wav_rounds chunks (x ∷ xs) hdr pos p ≡ wav_rounds chunks xs h pos' p'
unfolding wav_rounds
wav_rounds-next chunks x xs hdr pos p h pos' p' e = rw (e, wav_rounds) refl

wav_rounds-done :
    (chunks : List Bytes) (x : Xref) (xs : List Xref) (hdr : Bytes) (pos : ℕ) (p p' : Progress)
    → wav_round chunks x hdr pos p ≡ done p'
    → wav_rounds chunks (x ∷ xs) hdr pos p ≡ some p'
unfolding wav_rounds
wav_rounds-done chunks x xs hdr pos p p' e = rw (e, wav_rounds) refl

-- What the loop does with the entries left: it delivers all that remains.
unfoldable pub Delivered : List Bytes → List Xref → Bytes → ℕ → Progress → Type 0
Delivered chunks xs hdr pos p =
    (p' : Progress) × (wav_rounds chunks xs hdr pos p ≡ some p')
    × (p'.remaining ≡ 0)
    × (p'.output
        ≡ write_at p.output p.output_position
            (slice (audio chunks xs) (p.read_offset - pos) p.remaining))

module _ (chunks : List Bytes) (x : Xref) (xs : List Xref) (hdr : Bytes) (pos : ℕ)
    (p : Progress) where
  Delivered-skip :
      (x.frame_type == mlv_frame_audf) ≡ false
      → Delivered chunks xs hdr pos p
      → Delivered chunks (x ∷ xs) hdr pos p
  unfolding Delivered wav_rounds
  Delivered-skip e d = rw (wav_round-skip chunks x hdr pos p e, wav_rounds, e) d

  module _ (e : (x.frame_type == mlv_frame_audf) ≡ true) (f : IsFrame (chunk_of chunks x) x) where
    frame : Bytes
    frame = sound (chunk_of chunks x) x

    length-frame : length frame ≡ frame_size (chunk_of chunks x) x
    unfolding frame size file
    length-frame = length-sound chunks x hdr pos p e f

    audio-frame : audio chunks (x ∷ xs) ≡ frame ++ audio chunks xs
    unfolding frame
    audio-frame = rw e refl

    Delivered-before :
        pos + length frame < p.read_offset
        → ((hdr' : Bytes) → Delivered chunks xs hdr' (pos + length frame) p)
        → Delivered chunks (x ∷ xs) hdr pos p
    unfolding Delivered size hdr' file frame
    Delivered-before h d =
        let n = length frame in
        let A = audio chunks xs in
        let o = p.read_offset - pos in
        let k : p.read_offset - (pos + n) ≡ o - n = omega arith in
        let step : wav_round chunks x hdr pos p ≡ next (hdr' chunks x hdr pos p e f) (pos + n) p =
          rw length-frame (wav_round-before chunks x hdr pos p e f (omega (arith, length-frame))) in
        let r = d (hdr' chunks x hdr pos p e f) in
        let same : slice A (p.read_offset - (pos + n)) p.remaining
            ≡ slice (audio chunks (x ∷ xs)) o p.remaining =
          rw (k, audio-frame) (sym (slice-append_right frame A o p.remaining (omega arith))) in
        (
          r.0,
          wav_rounds-next chunks x xs hdr pos p _ _ _ step ∙ r.1,
          r.2,
          r.3 ∙ ap (write_at p.output p.output_position) same,
        )

    Delivered-last :
        pos ≤ p.read_offset
        → p.read_offset + p.remaining ≤ pos + length frame
        → Delivered chunks (x ∷ xs) hdr pos p
    unfolding Delivered size hdr' file frame
    Delivered-last l h =
        let o = p.read_offset - pos in
        let p' = deliver (slice frame o p.remaining) p.remaining p in
        let step : wav_round chunks x hdr pos p ≡ done p' =
          wav_round-last chunks x hdr pos p e f l (omega (arith, length-frame)) in
        let same : slice frame o p.remaining ≡ slice (audio chunks (x ∷ xs)) o p.remaining =
          rw audio-frame
            (sym (slice-append_left frame (audio chunks xs) o p.remaining (omega arith))) in
        (
          p',
          wav_rounds-done chunks x xs hdr pos p p' step,
          unfold deliver in omega arith,
          unfold deliver in ap (write_at p.output p.output_position) same,
        )

    Delivered-part :
        pos ≤ p.read_offset
        → p.read_offset ≤ pos + length frame
        → pos + length frame < p.read_offset + p.remaining
        → ((hdr' : Bytes)
            → Delivered chunks xs hdr' (pos + length frame) (
                deliver
                  (slice frame (p.read_offset - pos) (length frame - (p.read_offset - pos)))
                  (length frame - (p.read_offset - pos))
                  p))
        → Delivered chunks (x ∷ xs) hdr pos p
    unfolding Delivered size hdr' file frame
    Delivered-part l h m d =
        let n = length frame in
        let A = audio chunks xs in
        let o = p.read_offset - pos in
        let p' = deliver (slice frame o (n - o)) (n - o) p in
        let step : wav_round chunks x hdr pos p ≡ next (hdr' chunks x hdr pos p e f) (pos + n) p' =
          rw length-frame (
            wav_round-part chunks x hdr pos p e f l (omega (arith, length-frame))
              (omega (arith, length-frame))) in
        let r = d (hdr' chunks x hdr pos p e f) in
        let joined : slice frame o (n - o) ++ slice A 0 (p.remaining - (n - o))
            ≡ slice (audio chunks (x ∷ xs)) o p.remaining =
          rw audio-frame
            (sym (slice-append_across frame A o p.remaining (omega arith) (omega arith))) in
        let W = write_at p.output p.output_position (slice frame o (n - o)) in
        let left = p.remaining - (n - o) in
        let z : p.read_offset + (n - o) - (pos + n) ≡ 0 = omega arith in
        let len : n - o ≡ length (slice frame o (n - o)) =
          sym (length-slice frame o (n - o) (omega arith)) in
        let written : r.0.output
            ≡ write_at W (p.output_position + (n - o))
                (slice A (p.read_offset + (n - o) - (pos + n)) left) =
          unfold deliver in r.3 in
        let whole : r.0.output
            ≡ write_at p.output p.output_position (slice (audio chunks (x ∷ xs)) o p.remaining) =
          written
          ∙ ap (λ (k : ℕ). write_at W (p.output_position + (n - o)) (slice A k left)) z
          ∙ ap (λ (k : ℕ). write_at W (p.output_position + k) (slice A 0 left)) len
          ∙ write_at-write_at p.output p.output_position (slice frame o (n - o)) (slice A 0 left)
          ∙ ap (write_at p.output p.output_position) joined in
        (r.0, wav_rounds-next chunks x xs hdr pos p _ _ _ step ∙ r.1, r.2, whole)

pub wav_rounds-Delivered :
    (chunks : List Bytes) (xs : List Xref) (hdr : Bytes) (pos : ℕ) (p : Progress)
    → All (IsAudio chunks) xs
    → pos ≤ p.read_offset
    → 0 < p.remaining
    → p.read_offset + p.remaining ≤ pos + length (audio chunks xs)
    → Delivered chunks xs hdr pos p
unfolding frame deliver
wav_rounds-Delivered chunks [] hdr pos p a l r h = absurd (omega arith)
wav_rounds-Delivered chunks (x ∷ xs) hdr pos p (f, a) l r h =
    elim (Bool-cases (x.frame_type == mlv_frame_audf)) [
      | inr e ↦
          Delivered-skip chunks x xs hdr pos p e
            (wav_rounds-Delivered chunks xs hdr pos p a l r (rw e at h))
      | inl e ↦
          let y = f e in
          let q = sound (chunk_of chunks x) x in
          let n = length q in
          let total : length (audio chunks (x ∷ xs)) ≡ n + length (audio chunks xs) =
            rw e (length-append q (audio chunks xs)) in
          elim (Bool-cases (ltb (pos + n) p.read_offset)) [
            | inl b ↦ Delivered-before chunks x xs hdr pos p e y (ground arith) (λ k.
                wav_rounds-Delivered chunks xs k (pos + n) p a
                  (omega (arith, ltb→lt (pos + n) p.read_offset b)) r (omega (arith, total)))
            | inr b ↦ elim (Bool-cases (ltb (pos + n) (p.read_offset + p.remaining))) [
              | inl m ↦
                  let lo : p.read_offset ≤ pos + n = ground arith in
                  let hi : pos + n < p.read_offset + p.remaining = ltb→lt _ _ m in
                  let o = p.read_offset - pos in
                  Delivered-part chunks x xs hdr pos p e y l lo hi (λ k.
                    wav_rounds-Delivered chunks xs k (pos + n)
                      (deliver (slice q o (n - o)) (n - o) p) a (omega arith) (omega arith)
                      (omega (arith, total)))
              | inr m ↦ Delivered-last chunks x xs hdr pos p e y l (ground arith)
            ]
          ]
    ]
