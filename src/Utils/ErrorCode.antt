-- ===== src/Utils/ErrorCode.antt =====
-- ParseRPCErrorCode of common/utils/utils.go. Codes are those of google.golang.org/grpc/codes.
use panda_go.Prelude.{
  ℕ, zero, Bool, true, false, ◌≡◌, ◌↔◌, Option, none, some, arith, Eq, ◌==◌, nat_beq, nat_eq,
  if◌then◌else◌,
}
use panda_go.Go.Int.{ℤ, pos, negsuc}
use panda_go.Go.Error.{Error}

abbrev pub int_beq : ℤ → ℤ → Bool
int_beq (pos a) (pos b) = nat_beq a b
int_beq (negsuc a) (negsuc b) = nat_beq a b
int_beq _ _ = false

pub int_beq_iff : (a b : ℤ) → (int_beq a b ≡ true) ↔ (a ≡ b)
int_beq_iff (pos a) (pos b) = ground arith
int_beq_iff (pos a) (negsuc b) = ground arith
int_beq_iff (negsuc a) (pos b) = ground arith
int_beq_iff (negsuc a) (negsuc b) = ground arith

-- The status of an error, if it carries one, and the number under the key "code" of its text, if the
-- text has one, as google.golang.org/grpc/status and tidwall/gjson read them.
pub record ErrorReader : Type 0 where
  pub status_code : Error → Option ℕ
  pub json_code : Error → Option ℤ

abbrev pub code_unknown : ℕ
code_unknown = 2

abbrev pub code_unavailable : ℤ
code_unavailable = pos 14

abbrev pub code_of_json : Option ℤ → ℤ
code_of_json none = pos code_unknown
code_of_json (some (pos zero)) = pos code_unknown
code_of_json (some n) = n

unfoldable pub parse_rpc_error_code : ErrorReader → Error → ℤ
parse_rpc_error_code r e = elim (r.status_code e) [
  | none ↦ code_of_json (r.json_code e)
  | some c ↦ if c == code_unknown then code_of_json (r.json_code e) else pos c
]

instance abbrev pub int_eq : Eq ℤ
int_eq = record { beq = int_beq; beq_iff = int_beq_iff }
