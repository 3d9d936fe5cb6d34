-- ===== src/Wav/Round.antt =====
-- One round of the loop over the index in `wav_get_data_direct` of mlvfs/wav.c.
use mlvfs.Base.{
  ℕ, ◌+◌, ◌-◌, min, ◌≤◌, ◌<◌, ◌≡◌, refl, sym, ap, ◌∙◌, true, false, List, [], ◌∷◌, ◌++◌, length,
  drop, get_or, ltb, leb, ◌==◌, if◌then◌else◌, arith, Bytes, bytes_eq, le_value, slice,
  length-slice, slice-append_left, slice-slice,
}
use mlvfs.Index.Block.{audf, mlv_frame_audf}
use mlvfs.Index.Scan.{overlay}
use mlvfs.Index.Encode.{Xref}
use mlvfs.Wav.{
  Progress, next, done, audf_block_size, frame_space, deliver, read_frame, frame_round, wav_round,
}

-- The header of the block at an entry's offset, and its sound.
abbrev pub header_at : Bytes → Xref → Bytes
header_at file x = slice file x.frame_offset 24

abbrev pub frame_size : Bytes → Xref → ℕ
frame_size file x = audf_block_size (header_at file x) - (24 + frame_space (header_at file x))

abbrev pub sound : Bytes → Xref → Bytes
sound file x =
    slice file (x.frame_offset + (24 + frame_space (header_at file x))) (frame_size file x)

-- An AUDF block that the file holds whole.
pub record IsFrame (file : Bytes) (x : Xref) : Type 0 where
  pub type : bytes_eq (slice (header_at file x) 0 4) audf ≡ true
  pub room : 24 + frame_space (header_at file x) ≤ audf_block_size (header_at file x)
  pub whole : x.frame_offset + audf_block_size (header_at file x) ≤ length file

abbrev pub chunk_of : List Bytes → Xref → Bytes
chunk_of chunks x = get_or chunks x.file_number []

abbrev pub IsAudio : List Bytes → Xref → Type 0
IsAudio chunks x = (x.frame_type == mlv_frame_audf) ≡ true → IsFrame (chunk_of chunks x) x

-- The sound of all entries of type AUDF, in the order of the index.
abbrev pub audio : List Bytes → List Xref → Bytes
audio chunks [] = []
audio chunks (x ∷ xs) =
    (if x.frame_type == mlv_frame_audf then sound (chunk_of chunks x) x else []) ++ audio chunks xs

module _ (chunks : List Bytes) (x : Xref) (hdr : Bytes) (pos : ℕ) (p : Progress) where
  pub wav_round-skip :
      (x.frame_type == mlv_frame_audf) ≡ false → wav_round chunks x hdr pos p ≡ next hdr pos p
  unfolding wav_round
  wav_round-skip e = rw e

  module _ (e : (x.frame_type == mlv_frame_audf) ≡ true) (f : IsFrame (chunk_of chunks x) x) where
    unfoldable pub file : Bytes
    file = chunk_of chunks x

    unfoldable pub hdr' : Bytes
    hdr' = overlay (slice file x.frame_offset 24) hdr

    fields :
        (slice hdr' 0 4 ≡ slice (header_at file x) 0 4)
        × (audf_block_size hdr' ≡ audf_block_size (header_at file x))
        × (frame_space hdr' ≡ frame_space (header_at file x))
    unfolding file hdr' overlay audf_block_size frame_space
    fields =
        let h = header_at file x in
        let rest = drop (length h) hdr in
        let l : length h ≡ 24 =
          length-slice file x.frame_offset 24 (omega (arith, f.whole, f.room)) in
        (
          slice-append_left h rest 0 4 (omega arith),
          ap le_value (slice-append_left h rest 4 4 (omega arith)),
          ap le_value (slice-append_left h rest 20 4 (omega arith)),
        )

    unfoldable pub size : ℕ
    size = frame_size file x

    pub length-sound : length (sound file x) ≡ size
    unfolding file size
    length-sound = length-slice file _ _ (omega (arith, f.whole, f.room))

    wav_round-frame : wav_round chunks x hdr pos p ≡ (
        if leb p.read_offset (pos + size)
        then (if (read_frame file
                (x.frame_offset + (24 + frame_space (header_at file x)))
                size
                pos
                p).remaining
              == 0
            then done (
                read_frame file (x.frame_offset + (24 + frame_space (header_at file x))) size pos p)
            else next hdr' (pos + size) (
                read_frame file
                  (x.frame_offset + (24 + frame_space (header_at file x)))
                  size
                  pos
                  p))
        else next hdr' (pos + size) p)
    unfolding wav_round frame_round file hdr' size
    wav_round-frame =
        let (t, b, s) = fields in
        let type : bytes_eq (slice hdr' 0 4) audf ≡ true = rw t f.type in
        let small : ltb (audf_block_size (header_at file x)) (24 + frame_space (header_at file x))
            ≡ false =
          ground (arith, f.room) in
        rw (e, type, b, s, small)

    read_frame-sound :
        pos ≤ p.read_offset
        → p.read_offset ≤ pos + size
        → read_frame file (x.frame_offset + (24 + frame_space (header_at file x))) size pos p ≡ (
            let n = min (size - (p.read_offset - pos)) p.remaining in
            deliver (slice (sound file x) (p.read_offset - pos) n) n p)
    unfolding read_frame size file
    read_frame-sound l h =
        let n = min (size - (p.read_offset - pos)) p.remaining in
        ap (λ (bs : Bytes). deliver bs n p)
          (sym (slice-slice file _ size (p.read_offset - pos) n (omega arith)))

    -- The frame ends before the part that is read.
    pub wav_round-before :
        pos + size < p.read_offset → wav_round chunks x hdr pos p ≡ next hdr' (pos + size) p
    wav_round-before h =
        let t : leb p.read_offset (pos + size) ≡ false = ground arith in wav_round-frame ∙ rw t refl

    -- The frame holds the end of the part that is read.
    pub wav_round-last :
        pos ≤ p.read_offset
        → p.read_offset + p.remaining ≤ pos + size
        → wav_round chunks x hdr pos p
          ≡ done (deliver (slice (sound file x) (p.read_offset - pos) p.remaining) p.remaining p)
    wav_round-last l h =
        let o = p.read_offset - pos in
        let t : leb p.read_offset (pos + size) ≡ true = ground arith in
        let n : min (size - o) p.remaining ≡ p.remaining = omega arith in
        let z : ((deliver (slice (sound file x) o p.remaining) p.remaining p).remaining == 0)
            ≡ true =
          unfold deliver in ground arith in
        let r = rw n at read_frame-sound l (omega arith) in wav_round-frame ∙ rw (t, r, z) refl

    -- The frame holds a part of it, and not the end.
    pub wav_round-part :
        pos ≤ p.read_offset
        → p.read_offset ≤ pos + size
        → pos + size < p.read_offset + p.remaining
        → wav_round chunks x hdr pos p
          ≡ next hdr' (pos + size) (
              deliver
                (slice (sound file x) (p.read_offset - pos) (size - (p.read_offset - pos)))
                (size - (p.read_offset - pos))
                p)
    wav_round-part l h m =
        let o = p.read_offset - pos in
        let t : leb p.read_offset (pos + size) ≡ true = ground arith in
        let n : min (size - o) p.remaining ≡ size - o = omega arith in
        let z : ((deliver (slice (sound file x) o (size - o)) (size - o) p).remaining == 0)
            ≡ false =
          unfold deliver in ground arith in
        let r = rw n at read_frame-sound l h in wav_round-frame ∙ rw (t, r, z) refl
