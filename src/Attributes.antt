-- ===== src/Attributes.antt =====
-- The attributes that mlvfs/resource_manager.c remembers by path.
mod Tests
use mlvfs.Base.{
  ◌≡◌, refl, Bool, true, false, Option, none, some, List, [], ◌∷◌, if◌then◌else◌, arith, Bytes,
  bytes_eq, bytes_eq_refl, eq_of_bytes_eq, Option-cases, inl, inr,
}

-- `struct dng_attr_mapping`, over any type of attributes. Paths are compared as on a system
-- whose file names have a case.
pub record DngAttrMapping (A : Type 0) : Type 0 where
  pub path : Bytes
  pub attr : A

-- The results of the three calls of `malloc` in `register_dng_attr`.
pub record Memory : Type 0 where
  pub mapping : Bool
  pub path : Bool
  pub attr : Bool

unfoldable pub lookup_dng_attr : {A : Type 0} → Bytes → List (DngAttrMapping A) → Option A
lookup_dng_attr path [] = none
lookup_dng_attr path (m ∷ ms) =
    if bytes_eq m.path path then some m.attr else lookup_dng_attr path ms

unfoldable pub register_dng_attr :
    {A : Type 0} → Memory → DngAttrMapping A → List (DngAttrMapping A) → List (DngAttrMapping A)
register_dng_attr memory m ms = elim (lookup_dng_attr m.path ms) [
  | some _ ↦ ms
  | none ↦
      if memory.mapping then if memory.path then if memory.attr then m ∷ ms else ms else ms else ms
]

abbrev pub had : Memory
had = record { mapping = true; path = true; attr = true }

-- The registrations in the order in which they are made.
unfoldable pub register_all :
    {A : Type 0} → List (DngAttrMapping A) → List (DngAttrMapping A) → List (DngAttrMapping A)
register_all [] ms = ms
register_all (r ∷ rs) ms = register_all rs (register_dng_attr had r ms)

abbrev pub or_else : {A : Type 0} → Option A → Option A → Option A
or_else (some a) o = some a
or_else none o = o

module _ {A : Type 0} where
  lookup_dng_attr-register_dng_attr :
      (path : Bytes) (m : DngAttrMapping A) (ms : List (DngAttrMapping A))
      → lookup_dng_attr path (register_dng_attr had m ms)
        ≡ or_else (lookup_dng_attr path ms) (lookup_dng_attr path (m ∷ []))
  unfolding lookup_dng_attr register_dng_attr
  lookup_dng_attr-register_dng_attr path m ms = elim (Option-cases (lookup_dng_attr m.path ms)) [
    | inl e ↦ elim (Option-cases (lookup_dng_attr path ms)) [
      | inl n ↦ ground (arith, e, n)
      | inr (a, n) ↦ ground (arith, e, n, eq_of_bytes_eq m.path path)
    ]
    | inr (b, e) ↦ elim (Option-cases (lookup_dng_attr path ms)) [
      | inl n ↦ ground (arith, e, n, eq_of_bytes_eq m.path path)
      | inr (a, n) ↦ ground (arith, e, n)
    ]
  ]

  -- After any registrations, with memory at hand, a path has the attributes that were registered
  -- for it first: what was there before, or else the earliest of the new ones.
  pub lookup_dng_attr-register_all :
      (path : Bytes) (rs ms : List (DngAttrMapping A))
      → lookup_dng_attr path (register_all rs ms)
        ≡ or_else (lookup_dng_attr path ms) (lookup_dng_attr path rs)
  unfolding register_all lookup_dng_attr
  lookup_dng_attr-register_all path [] ms = ground arith
  lookup_dng_attr-register_all path (r ∷ rs) ms = ground (
    arith,
    lookup_dng_attr-register_all path rs (register_dng_attr had r ms),
    lookup_dng_attr-register_dng_attr path r ms,
  )
