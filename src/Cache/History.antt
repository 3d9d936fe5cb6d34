-- ===== src/Cache/History.antt =====
-- The cache of mlvfs/resource_manager.c as its clients see it: over any history of requests and
-- releases a request returns what the callback makes of its path.
use mlvfs.Base.{
  ℕ, ◌≡◌, refl, inl, inr, Bool, true, false, ◌&&◌, Option, none, some, List, [], ◌∷◌, ◌==◌, arith,
  Bytes, bytes_eq, Option-cases, Bool-cases,
}
use mlvfs.Cache.{
  Frame, ImageBuffer, Cache, empty_frame, get_image_buffer, update, mark, held,
  get_or_create_image_buffer, release_image_buffer, release_image_buffer_by_path,
}
use mathlib.Core.Option
use mlvfs.Cache.Update.{get_image_buffer-update_ne, get_image_buffer-update}
use mlvfs.Cache.Requests.{IsValid, had, written-IsValid}
use mlvfs.Cache.Filled.{Filled}
use mlvfs.Cache.Contract.{Retries, get_or_create_image_buffer_contract}

-- The globals before the first request.
abbrev pub empty_cache : Cache
empty_cache = record { image_buffers = []; image_buffer_count = 0; next_address = 0 }

pub empty_cache-IsValid : IsValid empty_cache
empty_cache-IsValid = record {
  inv = record { counted = refl; ascending = omega arith };
  bounded = omega arith;
  distinct = tt;
}

-- What `open`, `read` and `release` ask of the cache.
pub data Call : Type 0 where
  requests : Bytes → Call
  releases : ℕ → Call
  releases_path : Bytes → Call

-- With memory at hand. `none` would be a fault.
unfoldable pub step : (Bytes → Frame → Frame) → Call → Cache → Option Cache
step cbr (requests path) c = elim (get_or_create_image_buffer had cbr path c) [
  | none ↦ none
  | some (b, created, c') ↦ some c'
]
step cbr (releases a) c = release_image_buffer a c
step cbr (releases_path path) c = some (release_image_buffer_by_path path c)

-- Whether each release of a history is of a buffer that is still there when it is called.
unfoldable pub live : (Bytes → Frame → Frame) → List Call → Cache → Bool
live cbr [] c = true
live cbr (k ∷ ks) c =
    let there : Bool = elim k [
      | requests path ↦ true
      | releases a ↦ held a c.image_buffers
      | releases_path path ↦ true
    ] in
    let rest : Bool = elim (step cbr k c) [ none ↦ true | some c' ↦ live cbr ks c' ] in
    there && rest

pub run : (Bytes → Frame → Frame) → List Call → Cache → Option Cache
run cbr [] c = some c
run cbr (k ∷ ks) c = elim (step cbr k c) [ none ↦ none | some c' ↦ run cbr ks c' ]

mark-Filled :
    (cbr : Bytes → Frame → Frame) (u : Bool) (a : ℕ) (bs : List ImageBuffer)
    → Filled cbr bs
    → Filled cbr (update a (mark u) bs)
unfolding update
mark-Filled cbr u a [] f = tt
mark-Filled cbr u a (b ∷ bs) f = elim (Bool-cases (b.address == a)) [
  | inl e ↦ rw e f
  | inr e ↦ rw e (f.0, mark-Filled cbr u a bs f.1)
]

marked-IsValid :
    (a : ℕ) (c : Cache)
    → IsValid c
    → IsValid (record c { image_buffers = update a (mark false) c.image_buffers })
marked-IsValid a c v = written-IsValid (mark false) a c (λ b. refl) (λ b. refl) v

-- A release by path keeps the cache valid and takes the mark off the buffer of that path, if
-- there is one; a lookup of any other path finds what it found before.
pub release_image_buffer_by_path_lem :
    (path q : Bytes) (c : Cache)
    → IsValid c
    → IsValid (release_image_buffer_by_path path c)
      × (get_image_buffer path (release_image_buffer_by_path path c).image_buffers
          ≡ Option.map (mark false) (get_image_buffer path c.image_buffers))
      × (bytes_eq path q ≡ false
          → get_image_buffer q (release_image_buffer_by_path path c).image_buffers
            ≡ get_image_buffer q c.image_buffers)
unfolding release_image_buffer_by_path
release_image_buffer_by_path_lem path q c v =
    elim (Option-cases (get_image_buffer path c.image_buffers)) [
      | inl e ↦ rw (e, release_image_buffer_by_path) (v, e, λ n. refl)
      | inr (b, e) ↦
          let up =
            get_image_buffer-update (mark false) (λ x. refl) (λ x. refl) path 0 c.next_address
              c.image_buffers b v.inv.ascending e in
          rw (e, release_image_buffer_by_path)
            (
              marked-IsValid b.address c v,
              up,
              λ n.
                  get_image_buffer-update_ne (mark false) (λ x. refl) (λ x. refl) path q 0
                    c.next_address c.image_buffers b v.inv.ascending e n,
            )
    ]

-- A call keeps the cache valid and filled, and does not fault while memory is at hand and what it
-- releases is there.
step-IsValid :
    (cbr : Bytes → Frame → Frame) (k : Call) (c : Cache)
    → Retries cbr
    → IsValid c
    → Filled cbr c.image_buffers
    → live cbr (k ∷ []) c ≡ true
    → (c' : Cache) × (step cbr k c ≡ some c') × IsValid c' × Filled cbr c'.image_buffers
unfolding step release_image_buffer_by_path live
step-IsValid cbr (requests path) c t v f l =
    let r = get_or_create_image_buffer_contract cbr t path c v f in (r.2, rw (r.3, step), r.4, r.5)
step-IsValid cbr (releases a) c t v f l =
    let there : held a c.image_buffers ≡ true = ground (arith, l) in
    (
      record c { image_buffers = update a (mark false) c.image_buffers },
      unfold release_image_buffer in rw there refl,
      marked-IsValid a c v,
      mark-Filled cbr false a c.image_buffers f,
    )
step-IsValid cbr (releases_path path) c t v f l =
    elim (Option-cases (get_image_buffer path c.image_buffers)) [
      | inl e ↦ (c, rw (e, release_image_buffer_by_path), v, f)
      | inr (b, e) ↦ (
        record c { image_buffers = update b.address (mark false) c.image_buffers },
        rw (e, release_image_buffer_by_path),
        marked-IsValid b.address c v,
        mark-Filled cbr false b.address c.image_buffers f,
      )
    ]

live-first :
    (cbr : Bytes → Frame → Frame) (k : Call) (ks : List Call) (c : Cache)
    → live cbr (k ∷ ks) c ≡ true
    → live cbr (k ∷ []) c ≡ true
unfolding live
live-first cbr (requests path) ks c l = elim (Option-cases (step cbr (requests path) c)) [
  | inl e ↦ rw e refl
  | inr (c', e) ↦ rw e refl
]
live-first cbr (releases a) ks c l =
    let there : held a c.image_buffers ≡ true = ground (arith, l) in
    elim (Option-cases (step cbr (releases a) c)) [
      | inl e ↦ rw (e, there) refl
      | inr (c', e) ↦ rw (e, there) refl
    ]
live-first cbr (releases_path path) ks c l = elim (Option-cases (step cbr (releases_path path) c)) [
  | inl e ↦ rw e refl
  | inr (c', e) ↦ rw e refl
]

live-rest :
    (cbr : Bytes → Frame → Frame) (k : Call) (ks : List Call) (c c' : Cache)
    → live cbr (k ∷ ks) c ≡ true
    → step cbr k c ≡ some c'
    → live cbr ks c' ≡ true
unfolding live
live-rest cbr k ks c c' l e = ground (arith, l, e)

run-IsValid :
    (cbr : Bytes → Frame → Frame) (ks : List Call) (c : Cache)
    → Retries cbr
    → IsValid c
    → Filled cbr c.image_buffers
    → live cbr ks c ≡ true
    → (c' : Cache) × (run cbr ks c ≡ some c') × IsValid c' × Filled cbr c'.image_buffers
unfolding run live
run-IsValid cbr [] c t v f l = (c, refl, v, f)
run-IsValid cbr (k ∷ ks) c t v f l =
    let r = step-IsValid cbr k c t v f (live-first cbr k ks c l) in
    let s = run-IsValid cbr ks r.0 t r.2 r.3 (live-rest cbr k ks c r.0 l r.1) in
    (s.0, rw (r.1, run) s.1, s.2, s.3)

-- Over any history of requests and releases from the empty cache in which each release by address
-- is of a buffer that is still cached, with memory at hand and a callback that makes the same again
-- of a buffer it left without an image, no call faults, the cache stays valid, and a request then
-- returns exactly what the callback makes of its path: eviction and reuse do not show.
pub run_transparent :
    (cbr : Bytes → Frame → Frame) (ks : List Call) (path : Bytes)
    → Retries cbr
    → live cbr ks empty_cache ≡ true
    → (c : Cache) × (b : ImageBuffer) × (created : Bool) × (c' : Cache) × (run cbr ks empty_cache
        ≡ some c)
      × IsValid c
      × (get_or_create_image_buffer had cbr path c ≡ some (b, created, c'))
      × (b.frame ≡ cbr path empty_frame)
run_transparent cbr ks path t l =
    let s = run-IsValid cbr ks empty_cache t empty_cache-IsValid tt l in
    let r = get_or_create_image_buffer_contract cbr t path s.0 s.2 s.3 in
    (s.0, r.0, r.1, r.2, s.1, s.2, r.3, r.7)
