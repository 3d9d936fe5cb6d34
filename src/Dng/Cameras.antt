-- ===== src/Dng/Cameras.antt =====
-- The colour matrices of cameras of mlvfs/dng.c, and the search in them. A negative number is written by
-- its value modulo 2 ^ 32.
use mlvfs.Base.{
  ℕ, ◌-◌, ◌^◌, ◌≡◌, refl, Bool, true, false, List, [], ◌∷◌, ◌++◌, length, if◌then◌else◌, Bytes,
  bytes_eq, All,
}

-- `struct cam_matrices`.
pub record CamMatrices : Type 0 where
  pub camera : Bytes
  pub color_matrix1 : List ℕ
  pub color_matrix2 : List ℕ
  pub forward_matrix1 : List ℕ
  pub forward_matrix2 : List ℕ

abbrev pub canon_eos : Bytes
canon_eos = b'C' ∷ b'a' ∷ b'n' ∷ b'o' ∷ b'n' ∷ 32 ∷ b'E' ∷ b'O' ∷ b'S' ∷ 32 ∷ []

-- The number `- n`.
abbrev pub minus_int : ℕ → ℕ
minus_int n = 2 ^ 32 - n

abbrev fraction : ℕ → List ℕ → List ℕ
fraction n rest = n ∷ 10000 ∷ rest

-- Nine numbers, each above the denominator 10000.
unfoldable pub matrix : (a b c d e f g h i : ℕ) → List ℕ
matrix a b c d e f g h i = fraction a (
    fraction b
      (fraction c (fraction d (fraction e (fraction f (fraction g (fraction h (fraction i []))))))))

abbrev mk_matrices : Bytes → List ℕ → List ℕ → List ℕ → List ℕ → CamMatrices
mk_matrices camera c1 c2 f1 f2 = record {
  camera = camera;
  color_matrix1 = c1;
  color_matrix2 = c2;
  forward_matrix1 = f1;
  forward_matrix2 = f2;
}

-- The first row, which also stands for a camera that is not listed.
unfoldable pub first_matrices : CamMatrices
first_matrices =
    mk_matrices
      (canon_eos ++ (b'5' ∷ b'D' ∷ 32 ∷ b'M' ∷ b'a' ∷ b'r' ∷ b'k' ∷ 32 ∷ b'I' ∷ b'I' ∷ b'I' ∷ []))
      (matrix 7234 (minus_int 1413) (minus_int 600) (minus_int 3631) 11150 2850 (minus_int 382) 1335
        6437)
      (matrix 6722 (minus_int 635) (minus_int 963) (minus_int 4287) 12460 2028 (minus_int 908) 2162
        5668)
      (matrix 7868 92 1683 2291 8615 (minus_int 906) 27 (minus_int 4752) 12976)
      (matrix 7637 805 1201 2649 9179 (minus_int 1828) 137 (minus_int 2456) 10570)

unfoldable pub cam_matrices : List CamMatrices
cam_matrices =
    first_matrices
    ∷ (mk_matrices
        (canon_eos ++ (b'5' ∷ b'D' ∷ 32 ∷ b'M' ∷ b'a' ∷ b'r' ∷ b'k' ∷ 32 ∷ b'I' ∷ b'I' ∷ []))
        (matrix 5309 (minus_int 229) (minus_int 336) (minus_int 6241) 13265 3337 (minus_int 817)
          1215 6664)
        (matrix 4716 603 (minus_int 830) (minus_int 7798) 15474 2480 (minus_int 1496) 1937 6651)
        (matrix 8924 (minus_int 1041) 1760 4351 6621 (minus_int 972) 505 (minus_int 1562) 9308)
        (matrix 8924 (minus_int 1041) 1760 4351 6621 (minus_int 972) 505 (minus_int 1562) 9308))
    ∷ (mk_matrices (canon_eos ++ (b'7' ∷ b'D' ∷ []))
        (matrix 11620 (minus_int 6350) 5 (minus_int 2558) 10146 2813 24 858 6926)
        (matrix 6844 (minus_int 996) (minus_int 856) (minus_int 3876) 11761 2396 (minus_int 593)
          1772 6198)
        (matrix 5445 3536 662 1106 10136 (minus_int 1242) (minus_int 374) (minus_int 3559) 12184)
        (matrix 7415 1533 695 2499 9997 (minus_int 2497) (minus_int 22) (minus_int 1933) 10207))
    ∷ (mk_matrices (canon_eos ++ (b'6' ∷ b'D' ∷ []))
        (matrix 7546 (minus_int 1435) (minus_int 929) (minus_int 3846) 11488 2692 (minus_int 332)
          1209 6370)
        (matrix 7034 (minus_int 804) (minus_int 1014) (minus_int 4420) 12564 2058 (minus_int 851)
          1994 5758)
        (matrix 7763 65 1815 2364 8351 (minus_int 715) (minus_int 59) (minus_int 4228) 12538)
        (matrix 7464 1044 1135 2648 9173 (minus_int 1820) 113 (minus_int 2154) 10292))
    ∷ (mk_matrices (canon_eos ++ (b'7' ∷ b'0' ∷ b'D' ∷ []))
        (matrix 7546 (minus_int 1435) (minus_int 929) (minus_int 3846) 11488 2692 (minus_int 332)
          1209 6370)
        (matrix 7034 (minus_int 804) (minus_int 1014) (minus_int 4420) 12564 2058 (minus_int 851)
          1994 5758)
        (matrix 7763 65 1815 2364 8351 (minus_int 715) (minus_int 59) (minus_int 4228) 12538)
        (matrix 7464 1044 1135 2648 9173 (minus_int 1820) 113 (minus_int 2154) 10292))
    ∷ (mk_matrices (canon_eos ++ (b'6' ∷ b'0' ∷ b'D' ∷ []))
        (matrix 7428 (minus_int 1897) (minus_int 491) (minus_int 3505) 10963 2929 (minus_int 337)
          1242 6413)
        (matrix 6719 (minus_int 994) (minus_int 925) (minus_int 4408) 12426 2211 (minus_int 887)
          2129 6051)
        (matrix 7550 645 1448 2138 8936 (minus_int 1075) (minus_int 5) (minus_int 4306) 12562)
        (matrix 7286 1385 972 2600 9468 (minus_int 2068) 93 (minus_int 2268) 10426))
    ∷ (mk_matrices (canon_eos ++ (b'5' ∷ b'0' ∷ b'D' ∷ []))
        (matrix 5852 (minus_int 578) (minus_int 41) (minus_int 4691) 11696 3427 (minus_int 886) 2323
          6879)
        (matrix 4920 616 (minus_int 593) (minus_int 6493) 13964 2784 (minus_int 1774) 3178 7005)
        (matrix 8716 (minus_int 692) 1618 3408 8077 (minus_int 1486) (minus_int 13) (minus_int 6583)
          14847)
        (matrix 9485 (minus_int 1150) 1308 4313 7807 (minus_int 2120) 293 (minus_int 2826) 10785))
    ∷ (mk_matrices (canon_eos ++ (b'5' ∷ b'5' ∷ b'0' ∷ b'D' ∷ []))
        (matrix 7755 (minus_int 2449) (minus_int 349) (minus_int 3106) 10222 3362 (minus_int 156)
          986 6409)
        (matrix 6941 (minus_int 1164) (minus_int 857) (minus_int 3825) 11597 2534 (minus_int 416)
          1540 6039)
        (matrix 7163 1301 1179 1926 9543 (minus_int 1469) (minus_int 278) (minus_int 3830) 12359)
        (matrix 7239 1838 566 2467 10246 (minus_int 2713) (minus_int 112) (minus_int 1754) 10117))
    ∷ (mk_matrices (canon_eos ++ (b'6' ∷ b'0' ∷ b'0' ∷ b'D' ∷ []))
        (matrix 7164 (minus_int 1916) (minus_int 431) (minus_int 3361) 10600 3200 (minus_int 272)
          1058 6442)
        (matrix 6461 (minus_int 907) (minus_int 882) (minus_int 4300) 12184 2378 (minus_int 819)
          1944 5931)
        (matrix 7486 835 1322 2099 9147 (minus_int 1245) (minus_int 12) (minus_int 3822) 12085)
        (matrix 7359 1365 918 2610 9687 (minus_int 2297) 98 (minus_int 2155) 10309))
    ∷ (mk_matrices (canon_eos ++ (b'6' ∷ b'5' ∷ b'0' ∷ b'D' ∷ []))
        (matrix 6985 (minus_int 1611) (minus_int 397) (minus_int 3596) 10749 3295 (minus_int 349)
          1136 6512)
        (matrix 6602 (minus_int 841) (minus_int 939) (minus_int 4472) 12458 2247 (minus_int 975)
          2039 6148)
        (matrix 7747 485 1411 2340 8840 (minus_int 1180) 105 (minus_int 4147) 12293)
        (matrix 7397 1199 1047 2650 9355 (minus_int 2005) 193 (minus_int 2113) 10171))
    ∷ (mk_matrices (canon_eos ++ (b'7' ∷ b'0' ∷ b'0' ∷ b'D' ∷ []))
        (matrix 6985 (minus_int 1611) (minus_int 397) (minus_int 3596) 10749 3295 (minus_int 349)
          1136 6512)
        (matrix 6602 (minus_int 841) (minus_int 939) (minus_int 4472) 12458 2247 (minus_int 975)
          2039 6148)
        (matrix 7747 485 1411 2340 8840 (minus_int 1180) 105 (minus_int 4147) 12293)
        (matrix 7397 1199 1047 2650 9355 (minus_int 2005) 193 (minus_int 2113) 10171))
    ∷ (mk_matrices (canon_eos ++ (b'1' ∷ b'1' ∷ b'0' ∷ b'0' ∷ b'D' ∷ []))
        (matrix 6873 (minus_int 1696) (minus_int 529) (minus_int 3659) 10795 3313 (minus_int 362)
          1165 7234)
        (matrix 6444 (minus_int 904) (minus_int 893) (minus_int 4563) 12308 2535 (minus_int 903)
          2016 6728)
        (matrix 7607 647 1389 2337 8876 (minus_int 1213) 93 (minus_int 3625) 11783)
        (matrix 7357 1377 909 2729 9630 (minus_int 2359) 104 (minus_int 1940) 10087))
    ∷ (mk_matrices (canon_eos ++ (b'M' ∷ []))
        (matrix 7357 1377 909 2729 9630 (minus_int 2359) 104 (minus_int 1940) 10087)
        (matrix 6602 (minus_int 841) (minus_int 939) (minus_int 4472) 12458 2247 (minus_int 975)
          2039 6148)
        (matrix 7747 485 1411 2340 8840 (minus_int 1180) 105 (minus_int 4147) 12293)
        (matrix 7397 1199 1047 2650 9355 (minus_int 2005) 193 (minus_int 2113) 10171))
    ∷ []

-- The first row of the camera's name, or the one that is given.
unfoldable pub find_matrices : Bytes → List CamMatrices → CamMatrices → CamMatrices
find_matrices model [] other = other
find_matrices model (row ∷ rows) other =
    let rest = find_matrices model rows other in if bytes_eq row.camera model then row else rest

-- Matrices of nine fractions.
abbrev pub AreMatrices : CamMatrices → Type 0
AreMatrices m =
    (length m.color_matrix1 ≡ 18)
    × (length m.color_matrix2 ≡ 18)
    × (length m.forward_matrix1 ≡ 18)
    × (length m.forward_matrix2 ≡ 18)

first_matrices-AreMatrices : AreMatrices first_matrices
unfolding first_matrices matrix
first_matrices-AreMatrices = (refl, refl, refl, refl)

cam_matrices-AreMatrices : All AreMatrices cam_matrices
unfolding cam_matrices first_matrices matrix
cam_matrices-AreMatrices = (
  (refl, refl, refl, refl),
  (
    (refl, refl, refl, refl),
    (
      (refl, refl, refl, refl),
      (
        (refl, refl, refl, refl),
        (
          (refl, refl, refl, refl),
          (
            (refl, refl, refl, refl),
            (
              (refl, refl, refl, refl),
              (
                (refl, refl, refl, refl),
                (
                  (refl, refl, refl, refl),
                  (
                    (refl, refl, refl, refl),
                    (
                      (refl, refl, refl, refl),
                      ((refl, refl, refl, refl), ((refl, refl, refl, refl), tt)),
                    ),
                  ),
                ),
              ),
            ),
          ),
        ),
      ),
    ),
  ),
)

either :
    (b : Bool) (m n : CamMatrices)
    → AreMatrices m
    → AreMatrices n
    → AreMatrices (if b then m else n)
either true m n x y = x
either false m n x y = y

find_matrices-AreMatrices :
    (model : Bytes) (rows : List CamMatrices) (other : CamMatrices)
    → All AreMatrices rows
    → AreMatrices other
    → AreMatrices (find_matrices model rows other)
unfolding find_matrices
find_matrices-AreMatrices model [] other h o = o
find_matrices-AreMatrices model (row ∷ rows) other h o =
    let rest = find_matrices-AreMatrices model rows other h.1 o in
    either (bytes_eq row.camera model) row (find_matrices model rows other) h.0 rest

-- The matrices of any camera.
pub matrices_of-AreMatrices :
    (model : Bytes) → AreMatrices (find_matrices model cam_matrices first_matrices)
matrices_of-AreMatrices model =
    find_matrices-AreMatrices model cam_matrices first_matrices cam_matrices-AreMatrices
      first_matrices-AreMatrices
