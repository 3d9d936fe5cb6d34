-- ===== src/Attributes/Tests.antt =====
-- The attributes of mlvfs/resource_manager.c on small inputs.
use mlvfs.Base.{ℕ, ◌≡◌, refl, some, List, [], ◌∷◌, bytes_eq}
use mlvfs.Attributes.{
  DngAttrMapping, lookup_dng_attr, register_dng_attr, register_all, or_else,
  lookup_dng_attr-register_all,
}

abbrev mapping : ℕ → ℕ → DngAttrMapping ℕ
mapping p a = record { path = p ∷ []; attr = a }

abbrev registrations : List (DngAttrMapping ℕ)
registrations = mapping 1 10 ∷ mapping 2 20 ∷ mapping 1 30 ∷ []

-- The second registration of path 1 changes nothing.
lookup_dng_attr-registrations : lookup_dng_attr (1 ∷ []) (register_all registrations []) ≡ some 10
unfolding lookup_dng_attr register_all register_dng_attr bytes_eq
lookup_dng_attr-registrations = refl

lookup_dng_attr-register_all_example :
    lookup_dng_attr (1 ∷ []) (register_all registrations [])
    ≡ or_else (lookup_dng_attr (1 ∷ []) []) (lookup_dng_attr (1 ∷ []) registrations)
lookup_dng_attr-register_all_example = lookup_dng_attr-register_all (1 ∷ []) registrations []
