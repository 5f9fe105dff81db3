-- ===== src/Values.antt =====
-- include/hb.h and server/hb/int.c: the values of the interpreter. `Number` is `number_t`, `Value` is
-- `HBVAL` with its bytes, and `Error` holds the codes that `syn_err` and `sys_err` jump with. The type
-- `double` and the operations of C's mathematics library are the parameter `Reals`.
pub mod Arith
pub mod Stack
pub mod Bop
pub mod Tests
use db3w.Common.{ℕ, ◌+◌, Bool, List, [], ◌∷◌, Option, none, some, length, true, false}
use db3w.Common.Int.{ℤ}

pub record Reals : Type 1 where
  pub Real : Type 0
  pub of_long : ℤ → Real
  -- The conversion `(long)r`.
  pub to_long : Real → ℤ
  pub add : Real → Real → Real
  pub sub : Real → Real → Real
  pub mul : Real → Real → Real
  pub div : Real → Real → Real
  pub neg : Real → Real
  pub fabs : Real → Real
  pub fmin : Real → Real → Real
  pub power : Real → Real → Real
  pub lt : Real → Real → Bool
  pub eq : Real → Real → Bool
  pub dbl_min : Real
  pub dbl_max : Real
  pub dbl_epsilon : Real

-- The codes of include/hberrno.h that int.c and fcn.c use; `segfault` is a read through a null pointer,
-- `overread` a read outside of a buffer and `sigfpe` a division by zero.
pub data Error : Type 0 where
  invalid_value invalid_type invalid_operator type_mismatch str_toolong : Error
  stack_overflow stack_underflow stack_fault segfault overread sigfpe invalid_parmcnt : Error

pub data Result {ℓ} (A : Type ℓ) : Type ℓ where
  ok : A → Result A
  err : Error → Result A

infixl 5 ◌>>=◌
abbrev pub ◌>>=◌ {ℓ κ} : {A : Type ℓ} {B : Type κ} → Result A → (A → Result B) → Result B
ok a >>= f = f a
err e >>= f = err e

abbrev pub deci_max : ℕ
deci_max = 18

abbrev pub max_str_len : ℕ
max_str_len = 2046

-- `deci` is the number of decimals of a scaled 64-bit integer; the marks -1 and REAL of the source are
-- the constructors `null` and `real`.
pub data Number (R : Reals) : Type 0 where
  null : Number R
  real : R.Real → Number R
  fixed : ℕ → ℤ → Number R

pub data ValueType : Type 0 where
  nulltyp logic_typ number_typ date_typ charctr_typ addr_typ array_typ memo_typ blob_typ : ValueType

pub data Opaque : Type 0 where
  addr array memo blob : Opaque

-- A logical value, a number and a date may be null, which the source shows by the length 0; so is an
-- empty text. `other` holds the bytes of an address, an array header or a memo.
pub data Value (R : Reals) : Type 0 where
  nothing : Value R
  logic : Option Bool → Value R
  number : Number R → Value R
  date : Option ℕ → Value R
  charctr : List ℕ → Value R
  other : Opaque → List ℕ → Value R

-- The code of a type, as the source defines it.
abbrev pub type_code : ValueType → ℕ
type_code nulltyp = 0
type_code logic_typ = 1
type_code number_typ = 2
type_code date_typ = 3
type_code charctr_typ = 4
type_code addr_typ = 8
type_code array_typ = 9
type_code memo_typ = 10
type_code blob_typ = 11

abbrev pub opaque_type : Opaque → ValueType
opaque_type addr = addr_typ
opaque_type array = array_typ
opaque_type memo = memo_typ
opaque_type blob = blob_typ

module _ {R : Reals} where
  abbrev pub val_type : Value R → ValueType
  val_type nothing = nulltyp
  val_type (logic _) = logic_typ
  val_type (number _) = number_typ
  val_type (date _) = date_typ
  val_type (charctr _) = charctr_typ
  val_type (other t _) = opaque_type t

  -- `valspec.len`.
  abbrev pub val_len : Value R → ℕ
  val_len nothing = 0
  val_len (logic none) = 0
  val_len (logic (some _)) = 1
  val_len (number null) = 0
  val_len (number (real _)) = 8
  val_len (number (fixed _ _)) = 8
  val_len (date none) = 0
  val_len (date (some _)) = 4
  val_len (charctr s) = length s
  val_len (other _ s) = length s

  -- A value takes two bytes for its type and length, and its bytes.
  unfoldable pub val_size : Value R → ℕ
  val_size v = val_len v + 2
