-- ===== src/Dng/Focal.antt =====
-- The resolutions of cameras in the focal plane of mlvfs/dng.c, and the search in them.
use mlvfs.Base.{ℕ, List, [], ◌∷◌, ◌++◌, if◌then◌else◌, Bytes, bytes_eq}
use mlvfs.Dng.Cameras.{canon_eos}

-- `struct camera_focal_resolution`.
pub record CameraFocalResolution : Type 0 where
  pub camera : Bytes
  pub focal_resolution_x : ℕ × ℕ
  pub focal_resolution_y : ℕ × ℕ
  pub unit : ℕ

abbrev mk_focal : Bytes → ℕ × ℕ → ℕ × ℕ → ℕ → CameraFocalResolution
mk_focal camera x y unit = record {
  camera = camera;
  focal_resolution_x = x;
  focal_resolution_y = y;
  unit = unit;
}

unfoldable pub first_focal_resolution : CameraFocalResolution
first_focal_resolution =
    mk_focal
      (canon_eos ++ (b'5' ∷ b'D' ∷ 32 ∷ b'M' ∷ b'a' ∷ b'r' ∷ b'k' ∷ 32 ∷ b'I' ∷ b'I' ∷ b'I' ∷ []))
      (5760000, 1461) (3840000, 972) 2

unfoldable pub camera_focal_resolutions : List CameraFocalResolution
camera_focal_resolutions =
    first_focal_resolution
    ∷ (mk_focal
        (canon_eos ++ (b'5' ∷ b'D' ∷ 32 ∷ b'M' ∷ b'a' ∷ b'r' ∷ b'k' ∷ 32 ∷ b'I' ∷ b'I' ∷ []))
        (5616000, 1459) (3744000, 958) 2)
    ∷ (mk_focal (canon_eos ++ (b'7' ∷ b'D' ∷ [])) (5184000, 907) (3456000, 595) 2)
    ∷ (mk_focal (canon_eos ++ (b'6' ∷ b'D' ∷ [])) (5472000, 1436) (3648000, 956) 2)
    ∷ (mk_focal (canon_eos ++ (b'6' ∷ b'0' ∷ b'D' ∷ [])) (5184000, 905) (3456000, 595) 2)
    ∷ (mk_focal (canon_eos ++ (b'7' ∷ b'0' ∷ b'D' ∷ [])) (5472000, 899) (3648000, 599) 2)
    ∷ (mk_focal (canon_eos ++ (b'5' ∷ b'0' ∷ b'D' ∷ [])) (4752000, 894) (3168000, 597) 2)
    ∷ (mk_focal (canon_eos ++ (b'5' ∷ b'0' ∷ b'0' ∷ b'D' ∷ [])) (4752000, 894) (3168000, 593) 2)
    ∷ (mk_focal (canon_eos ++ (b'5' ∷ b'5' ∷ b'0' ∷ b'D' ∷ [])) (5184000, 905) (3456000, 595) 2)
    ∷ (mk_focal (canon_eos ++ (b'6' ∷ b'0' ∷ b'0' ∷ b'D' ∷ [])) (5184000, 905) (3456000, 595) 2)
    ∷ (mk_focal (canon_eos ++ (b'6' ∷ b'5' ∷ b'0' ∷ b'D' ∷ [])) (5184000, 894) (3456000, 597) 2)
    ∷ (mk_focal (canon_eos ++ (b'7' ∷ b'0' ∷ b'0' ∷ b'D' ∷ [])) (5184000, 894) (3456000, 597) 2)
    ∷ (mk_focal (canon_eos ++ (b'1' ∷ b'1' ∷ b'0' ∷ b'0' ∷ b'D' ∷ [])) (4272000, 905) (2848000, 595)
        2)
    ∷ (mk_focal (canon_eos ++ (b'M' ∷ [])) (5184000, 894) (3456000, 597) 2)
    ∷ []

unfoldable pub find_focal_resolution :
    Bytes → List CameraFocalResolution → CameraFocalResolution → CameraFocalResolution
find_focal_resolution model [] other = other
find_focal_resolution model (row ∷ rows) other =
    let rest = find_focal_resolution model rows other in
    if bytes_eq row.camera model then row else rest
