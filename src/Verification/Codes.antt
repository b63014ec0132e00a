-- ===== src/Verification/Codes.antt =====
-- common/verification.go: the map of verification codes. The mutex makes each function one step; the
-- clock is an argument, in nanoseconds, and `lifetime` is VerificationValidMinutes * 60 seconds.
use new_api_gateway.Prelude.{
  ℕ, ◌-◌, ◌/◌, ltb, Text, text_eq, Bool, false, ◌&&◌, Option, none, some, if◌then◌else◌, List, [],
  ◌∷◌, ◌++◌, length,
}

pub record VerificationValue : Type 0 where
  pub code : Text
  pub time : ℕ

-- verificationMap: its entries, each key once.
abbrev pub CodeMap : Type 0
CodeMap = List (Text × VerificationValue)

abbrev pub max_size : ℕ
max_size = 10

unfoldable pub delete_entry : Text → CodeMap → CodeMap
delete_entry key [] = []
delete_entry key ((k, v) ∷ m) =
    let rest = delete_entry key m in if text_eq k key then rest else (k, v) ∷ rest

unfoldable pub find_entry : Text → CodeMap → Option VerificationValue
find_entry key [] = none
find_entry key ((k, v) ∷ m) =
    let later = find_entry key m in if text_eq k key then some v else later

unfoldable pub is_live : ℕ → ℕ → VerificationValue → Bool
is_live lifetime now v = ltb ((now - v.time) / 1000000000) lifetime

unfoldable pub remove_expired_pairs : ℕ → ℕ → CodeMap → CodeMap
remove_expired_pairs lifetime now [] = []
remove_expired_pairs lifetime now ((k, v) ∷ m) =
    let rest = remove_expired_pairs lifetime now m in
    if is_live lifetime now v then (k, v) ∷ rest else rest

-- RegisterVerificationCodeWithKey; `cleaning` is the clock that removeExpiredPairs reads.
unfoldable pub register_code : ℕ → CodeMap → Text → Text → Text → ℕ → ℕ → CodeMap
register_code lifetime m key code purpose now cleaning =
    let added : CodeMap =
      (purpose ++ key, record { code = code; time = now }) ∷ delete_entry (purpose ++ key) m in
    if ltb max_size (length added) then remove_expired_pairs lifetime cleaning added else added

unfoldable pub verify_code : ℕ → CodeMap → Text → Text → Text → ℕ → Bool
verify_code lifetime m key code purpose now = elim (find_entry (purpose ++ key) m) [
  | none ↦ false
  | some v ↦ is_live lifetime now v && text_eq code v.code
]

unfoldable pub delete_key : CodeMap → Text → Text → CodeMap
delete_key m key purpose = delete_entry (purpose ++ key) m
