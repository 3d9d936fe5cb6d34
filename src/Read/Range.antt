-- ===== src/Read/Range.antt =====
-- What a read by `mlvfs_read` of mlvfs/main.c returns: a range of the file.
use mlvfs.Base.{
  ℕ, ◌+◌, ◌-◌, min, ◌≤◌, ◌<◌, ◌≡◌, refl, sym, ap, ◌∙◌, inl, inr, true, false, some, ◌++◌, length,
  length-append, drop, ltb, arith, Bool-cases, ltb→lt, Bytes, slice, length-slice, write_at,
  write_at-write_at, slice-append_right, slice-append_left, slice-append_across,
}
use mlvfs.Cache.{Frame}
use mlvfs.Read.{Reply, copy_dng, read_dng, read_gif, read_log}

-- What a read of `size` bytes at `offset` of a file returns.
abbrev pub range : Bytes → Bytes → ℕ → ℕ → Reply
range file buf offset size =
    let n = min size (length file - offset) in
    record { result = n; buf = slice file offset n ++ drop n buf }

-- A frame that was made: a header of the size of all headers, and the image behind it.
pub record Renders (dng_header_size : ℕ) (f : Frame) (h d : Bytes) : Type 0 where
  pub header : f.header ≡ some h
  pub image_data : f.image_data ≡ some d
  pub header_size : f.header_size ≡ dng_header_size
  pub size : f.size ≡ length d
  pub length_header : length h ≡ dng_header_size
  pub some_header : 0 < dng_header_size

write_start : (out bs : Bytes) → write_at out 0 bs ≡ bs ++ drop (length bs) out
unfolding write_at
write_start out bs = refl

module _ (hs : ℕ) (f : Frame) (header image_data buf : Bytes) (r : Renders hs f header image_data)
    (o n : ℕ) (inside : o + n ≤ hs + length image_data) where
  copied :
      copy_dng hs f header image_data buf o n
      ≡ some (record { result = n; buf = write_at buf 0 (slice (header ++ image_data) o n) })
  unfolding copy_dng
  copied =
      let lh = r.length_header in
      let sz = r.size in
      let pos : ltb 0 f.header_size ≡ true = ground (arith, r.header_size, r.some_header) in
      elim (Bool-cases (ltb o hs)) [
        | inl h ↦ elim (Bool-cases (ltb (hs - o) n)) [
          | inl m ↦
              let lt = ltb→lt _ _ h in
              let lt' = ltb→lt _ _ m in
              let k : min n (hs - o) ≡ hs - o = omega arith in
              let t : ltb (hs - o) n ≡ true = m in
              let s : ltb 0 f.size ≡ true = ground (arith, sz) in
              let g : ltb f.size 0 ≡ false = ground arith in
              let z : min (n - (hs - o)) (f.size - 0) ≡ n - (hs - o) = omega arith in
              let len : hs - o ≡ length (slice header o (hs - o)) =
                sym (length-slice header o (hs - o) (omega arith)) in
              let W = write_at buf 0 (slice header o (hs - o)) in
              let A = slice image_data 0 (n - (hs - o)) in
              let across = slice-append_across header image_data o n (omega arith) (omega arith) in
              let across' : slice header o (hs - o) ++ A ≡ slice (header ++ image_data) o n =
                sym (rw lh at across) in
              let len' : hs - o ≡ 0 + length (slice header o (hs - o)) = omega (arith, len) in
              let same : write_at W (hs - o) A ≡ write_at buf 0 (slice (header ++ image_data) o n) =
                ap (λ (i : ℕ). write_at W i A) len'
                ∙ write_at-write_at buf 0 (slice header o (hs - o)) A
                ∙ ap (write_at buf 0) across' in
              rw (h, pos, k, t, s, g, z, same) refl
          | inr m ↦
              let k : min n (hs - o) ≡ n = ground arith in
              let t : ltb n n ≡ false = ground arith in
              let all = slice-append_left header image_data o n (ground (arith, lh)) in
              rw (h, pos, k, t, all) refl
        ]
        | inr h ↦ elim (Bool-cases (ltb 0 n)) [
          | inl m ↦
              let s : ltb 0 f.size ≡ true = ground (arith, sz) in
              let g : ltb f.size (o - hs) ≡ false = ground (arith, sz) in
              let z : min (n - 0) (f.size - (o - hs)) ≡ n = ground (arith, sz) in
              let all = slice-append_right header image_data o n (ground (arith, lh)) in
              let all' : slice (header ++ image_data) o n ≡ slice image_data (o - hs) n =
                rw lh at all in
              rw (h, m, s, g, z, all') refl
          | inr m ↦ let z : n ≡ 0 = ground arith in rw (h, z) (unfold slice write_at in refl)
        ]
      ]

-- An offset that is cut at the end of the file leaves nothing to read, and no other changes.
reply_at : Bytes → Bytes → ℕ → ℕ → Reply
reply_at file buf o n = record { result = n; buf = write_at buf 0 (slice file o n) }

reply_at-range :
    (file buf : Bytes) (offset size total : ℕ)
    → total ≡ length file
    → reply_at file buf (min offset total) (min size (total - min offset total))
      ≡ range file buf offset size
unfolding reply_at
reply_at-range file buf offset size total e = elim (Bool-cases (ltb total offset)) [
  | inl h ↦
      let lt = ltb→lt total offset h in
      let o : min offset total ≡ total = omega arith in
      let n : min size (total - total) ≡ 0 = omega arith in
      let n' : min size (length file - offset) ≡ 0 = omega arith in
      rw (o, n, n') (unfold slice write_at in refl)
  | inr h ↦
      let o : min offset total ≡ offset = ground arith in
      let n : min size (total - offset) ≡ min size (length file - offset) = omega arith in
      let k = min size (length file - offset) in
      let len : length (slice file offset k) ≡ k = length-slice file offset k (ground (arith, e)) in
      let same : write_at buf 0 (slice file offset k) ≡ slice file offset k ++ drop k buf =
        write_start buf (slice file offset k)
        ∙ ap (λ (i : ℕ). slice file offset k ++ drop i buf) len in
      rw (o, n, same) refl
]

-- A read of a DNG file whose frame was rendered returns the range of the header and the image
-- behind it that was asked for, as far as the file goes, wherever the header ends in it.
pub read_dng_lem :
    (hs : ℕ) (f : Frame) (header image_data buf : Bytes) (offset size : ℕ)
    → Renders hs f header image_data
    → read_dng hs f buf offset size ≡ some (range (header ++ image_data) buf offset size)
unfolding read_dng
read_dng_lem hs f header image_data buf offset size r =
    let total = f.header_size + f.size in
    let o = min offset total in
    let n = min size (total - o) in
    let all : total ≡ length (header ++ image_data) =
      omega (arith, length-append header image_data, r.header_size, r.size, r.length_header) in
    let fits : ltb total (o + n) ≡ false = ground arith in
    let c = copied hs f header image_data buf r o n (omega (arith, r.header_size, r.size)) in
    rw (r.header, read_dng, r.image_data, fits, c)
      (ap some (unfold reply_at in reply_at-range (header ++ image_data) buf offset size total all))

-- A read of a preview that was made, with its size, returns the range of it that was asked for.
pub read_gif_lem :
    (f : Frame) (image_data buf : Bytes) (offset size : ℕ)
    → f.image_data ≡ some image_data
    → f.size ≡ length image_data
    → read_gif f buf offset size ≡ range image_data buf offset size
unfolding read_gif
read_gif_lem f image_data buf offset size e l =
    rw (e, read_gif) (unfold reply_at in reply_at-range image_data buf offset size f.size l)

-- A read of a log that is there returns the range of it that was asked for, as far as it goes.
pub read_log_lem :
    (log buf : Bytes) (offset size : ℕ)
    → read_log (some log) buf offset size ≡ range log buf offset size
unfolding read_log
read_log_lem log buf offset size = elim (Bool-cases (ltb offset (length log))) [
  | inl h ↦
      let lt = ltb→lt offset (length log) h in
      let k = min size (length log - offset) in
      let len : length (slice log offset k) ≡ k = length-slice log offset k (omega arith) in
      let same : write_at buf 0 (slice log offset k) ≡ slice log offset k ++ drop k buf =
        write_start buf (slice log offset k)
        ∙ ap (λ (i : ℕ). slice log offset k ++ drop i buf) len in
      rw (h, same) refl
  | inr h ↦
      let n : min size (length log - offset) ≡ 0 = ground arith in rw (h, n) (unfold slice in refl)
]
