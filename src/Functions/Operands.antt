-- ===== src/Functions/Operands.antt =====
-- server/hb/fcn.c: `parm_chk`, the checks of the parser on the operands of a call.
use db3w.Common.{ℕ, Bool, true, false, ◌&&◌, ◌||◌, not, ltb, ◌==◌, if◌then◌else◌}
use db3w.Common.Int.{ℤ, pos, neg_ℤ}
use db3w.Values.{
  Reals, ValueType, logic_typ, number_typ, date_typ, charctr_typ, Result, ok, err, ◌>>=◌,
  max_str_len, invalid_parmcnt,
}
use db3w.Values.Stack.{Env, Stack, typechk, pop_int, push_int}
use db3w.Functions.Codes.{
  Fcn, abs_fcn, alias_fcn, asc_fcn, at_fcn, atroot_fcn, auth_fcn, between_fcn, bof_fcn, cdow_fcn,
  chr_fcn, cid_fcn, cmonth_fcn, crypt_fcn, date_fcn, day_fcn, dbf_fcn, defined_fcn, deleted_fcn,
  disksize_fcn, diskspace_fcn, dow_fcn, dtoc_fcn, eof_fcn, epoch_fcn, exp_fcn, fieldcnt_fcn,
  fieldname_fcn, fieldno_fcn, fieldsize_fcn, file_fcn, filter_fcn, flock_fcn, found_fcn, hash_fcn,
  iif_fcn, index_fcn, int_fcn, isalpha_fcn, isdigit_fcn, isempty_fcn, islower_fcn, isupper_fcn,
  left_fcn, locate_fcn, log_fcn, log10_fcn, lower_fcn, ltrim_fcn, max_fcn, min_fcn, mktmp_fcn,
  mod_fcn, month_fcn, ndx_fcn, occurs_fcn, padc_fcn, padl_fcn, padr_fcn, parent_fcn, path_fcn,
  peer_fcn, pi_fcn, proper_fcn, rand_fcn, randstr_fcn, reccount_fcn, recno_fcn, recsize_fcn,
  replicate_fcn, right_fcn, rlock_fcn, round_fcn, rtrim_fcn, serial_fcn, soundex_fcn, space_fcn,
  spellnum_fcn, sqrt_fcn, str_fcn, stuff_fcn, substr_fcn, system_fcn, time_fcn, ttoc_fcn, type_fcn,
  upper_fcn, whoami_fcn, wok_fcn, val_fcn, year_fcn,
}

-- The count of operands, which is final at the closing parenthesis.
unfoldable pub count_ok : Bool → Fcn → ℕ → Bool
count_ok final between_fcn cnt = not (final && not (cnt == 3))
count_ok final iif_fcn cnt = not (final && not (cnt == 3))
count_ok final padc_fcn cnt = not (final && not (cnt == 3))
count_ok final padl_fcn cnt = not (final && not (cnt == 3))
count_ok final padr_fcn cnt = not (final && not (cnt == 3))
count_ok final str_fcn cnt = not (ltb 3 cnt || final && ltb cnt 1)
count_ok final substr_fcn cnt = not (ltb 3 cnt || final && ltb cnt 2)
count_ok final crypt_fcn cnt = not (ltb 2 cnt || final && ltb cnt 1)
count_ok final round_fcn cnt = not (ltb 2 cnt || final && ltb cnt 1)
count_ok final system_fcn cnt = not (ltb 2 cnt || final && ltb cnt 1)
count_ok final at_fcn cnt = not (ltb 2 cnt || final && not (cnt == 2))
count_ok final left_fcn cnt = not (ltb 2 cnt || final && not (cnt == 2))
count_ok final max_fcn cnt = not (ltb 2 cnt || final && not (cnt == 2))
count_ok final min_fcn cnt = not (ltb 2 cnt || final && not (cnt == 2))
count_ok final mod_fcn cnt = not (ltb 2 cnt || final && not (cnt == 2))
count_ok final occurs_fcn cnt = not (ltb 2 cnt || final && not (cnt == 2))
count_ok final replicate_fcn cnt = not (ltb 2 cnt || final && not (cnt == 2))
count_ok final cid_fcn cnt = not (ltb 1 cnt)
count_ok final date_fcn cnt = not (ltb 1 cnt)
count_ok final time_fcn cnt = not (ltb 1 cnt)
count_ok final path_fcn cnt = not (ltb 1 cnt)
count_ok final flock_fcn cnt = not (ltb 1 cnt)
count_ok final rlock_fcn cnt = not (ltb 1 cnt)
count_ok final abs_fcn cnt = cnt == 1
count_ok final asc_fcn cnt = cnt == 1
count_ok final cdow_fcn cnt = cnt == 1
count_ok final chr_fcn cnt = cnt == 1
count_ok final cmonth_fcn cnt = cnt == 1
count_ok final day_fcn cnt = cnt == 1
count_ok final dow_fcn cnt = cnt == 1
count_ok final dtoc_fcn cnt = cnt == 1
count_ok final exp_fcn cnt = cnt == 1
count_ok final fieldname_fcn cnt = cnt == 1
count_ok final fieldno_fcn cnt = cnt == 1
count_ok final fieldsize_fcn cnt = cnt == 1
count_ok final file_fcn cnt = cnt == 1
count_ok final hash_fcn cnt = cnt == 1
count_ok final int_fcn cnt = cnt == 1
count_ok final isalpha_fcn cnt = cnt == 1
count_ok final isdigit_fcn cnt = cnt == 1
count_ok final isempty_fcn cnt = cnt == 1
count_ok final islower_fcn cnt = cnt == 1
count_ok final isupper_fcn cnt = cnt == 1
count_ok final lower_fcn cnt = cnt == 1
count_ok final log_fcn cnt = cnt == 1
count_ok final log10_fcn cnt = cnt == 1
count_ok final ltrim_fcn cnt = cnt == 1
count_ok final mktmp_fcn cnt = cnt == 1
count_ok final month_fcn cnt = cnt == 1
count_ok final ndx_fcn cnt = cnt == 1
count_ok final parent_fcn cnt = cnt == 1
count_ok final proper_fcn cnt = cnt == 1
count_ok final randstr_fcn cnt = cnt == 1
count_ok final rtrim_fcn cnt = cnt == 1
count_ok final serial_fcn cnt = cnt == 1
count_ok final space_fcn cnt = cnt == 1
count_ok final spellnum_fcn cnt = cnt == 1
count_ok final sqrt_fcn cnt = cnt == 1
count_ok final ttoc_fcn cnt = cnt == 1
count_ok final type_fcn cnt = cnt == 1
count_ok final defined_fcn cnt = cnt == 1
count_ok final upper_fcn cnt = cnt == 1
count_ok final val_fcn cnt = cnt == 1
count_ok final year_fcn cnt = cnt == 1
count_ok final alias_fcn cnt = cnt == 0
count_ok final bof_fcn cnt = cnt == 0
count_ok final dbf_fcn cnt = cnt == 0
count_ok final deleted_fcn cnt = cnt == 0
count_ok final diskspace_fcn cnt = cnt == 0
count_ok final disksize_fcn cnt = cnt == 0
count_ok final eof_fcn cnt = cnt == 0
count_ok final epoch_fcn cnt = cnt == 0
count_ok final fieldcnt_fcn cnt = cnt == 0
count_ok final found_fcn cnt = cnt == 0
count_ok final recno_fcn cnt = cnt == 0
count_ok final filter_fcn cnt = cnt == 0
count_ok final index_fcn cnt = cnt == 0
count_ok final locate_fcn cnt = cnt == 0
count_ok final peer_fcn cnt = cnt == 0
count_ok final pi_fcn cnt = cnt == 0
count_ok final rand_fcn cnt = cnt == 0
count_ok final whoami_fcn cnt = cnt == 0
count_ok final atroot_fcn cnt = cnt == 0
count_ok final wok_fcn cnt = cnt == 0
count_ok final auth_fcn cnt = cnt == 0
count_ok final _ cnt = true

abbrev max_fld : ℕ
max_fld = 1023

abbrev max_ndx : ℕ
max_ndx = 16

-- What the last operand has to be.
pub data Operand : Type 0 where
  any : Operand
  typed : ValueType → Operand
  ranged : ℤ → ℤ → Operand

pub second_number : Fcn → ℕ → Operand
second_number round_fcn cnt =
    if ltb 1 cnt then ranged (neg_ℤ (pos max_str_len)) (pos max_str_len) else typed number_typ
second_number randstr_fcn cnt =
    if ltb 1 cnt then ranged (pos 0) (pos max_str_len) else typed number_typ
second_number str_fcn cnt = if ltb 1 cnt then ranged (pos 0) (pos max_str_len) else typed number_typ
second_number _ cnt = if ltb 1 cnt then ranged (pos 0) (pos max_str_len) else typed charctr_typ

pub is_pad : Fcn → Bool
is_pad padc_fcn = true
is_pad padl_fcn = true
is_pad padr_fcn = true
is_pad _ = false

pub is_stuff : Fcn → Bool
is_stuff stuff_fcn = true
is_stuff _ = false

pub placed : Fcn → ℕ → Operand
unfolding is_pad is_stuff
placed fcn cnt =
    if cnt == 1
    then typed charctr_typ
    else if cnt == 2
    then ranged (pos 1) (pos max_str_len)
    else if cnt == 3
    then (if is_pad fcn then typed charctr_typ else ranged (pos 0) (pos max_str_len))
    else if is_stuff fcn && (cnt == 4)
    then typed charctr_typ
    else any

pub operand : Fcn → ℕ → Operand
unfolding second_number placed
operand iif_fcn cnt = if cnt == 1 then typed logic_typ else any
operand date_fcn cnt = if cnt == 1 then typed logic_typ else any
operand replicate_fcn cnt = second_number replicate_fcn cnt
operand right_fcn cnt = second_number right_fcn cnt
operand round_fcn cnt = second_number round_fcn cnt
operand left_fcn cnt = second_number left_fcn cnt
operand randstr_fcn cnt = second_number randstr_fcn cnt
operand str_fcn cnt = second_number str_fcn cnt
operand padc_fcn cnt = placed padc_fcn cnt
operand padl_fcn cnt = placed padl_fcn cnt
operand padr_fcn cnt = placed padr_fcn cnt
operand substr_fcn cnt = placed substr_fcn cnt
operand stuff_fcn cnt = placed stuff_fcn cnt
operand fieldname_fcn cnt = ranged (pos 1) (pos max_fld)
operand fieldsize_fcn cnt = ranged (pos 1) (pos max_fld)
operand ndx_fcn cnt = ranged (pos 1) (pos max_ndx)
operand space_fcn cnt = ranged (pos 0) (pos max_str_len)
operand asc_fcn cnt = typed charctr_typ
operand at_fcn cnt = typed charctr_typ
operand file_fcn cnt = typed charctr_typ
operand isalpha_fcn cnt = typed charctr_typ
operand isdigit_fcn cnt = typed charctr_typ
operand isempty_fcn cnt = typed charctr_typ
operand islower_fcn cnt = typed charctr_typ
operand isupper_fcn cnt = typed charctr_typ
operand ltrim_fcn cnt = typed charctr_typ
operand mktmp_fcn cnt = typed charctr_typ
operand occurs_fcn cnt = typed charctr_typ
operand proper_fcn cnt = typed charctr_typ
operand rtrim_fcn cnt = typed charctr_typ
operand serial_fcn cnt = typed charctr_typ
operand soundex_fcn cnt = typed charctr_typ
operand system_fcn cnt = typed charctr_typ
operand type_fcn cnt = typed charctr_typ
operand defined_fcn cnt = typed charctr_typ
operand val_fcn cnt = typed charctr_typ
operand cdow_fcn cnt = typed date_typ
operand cmonth_fcn cnt = typed date_typ
operand day_fcn cnt = typed date_typ
operand dow_fcn cnt = typed date_typ
operand dtoc_fcn cnt = typed date_typ
operand month_fcn cnt = typed date_typ
operand year_fcn cnt = typed date_typ
operand abs_fcn cnt = typed number_typ
operand between_fcn cnt = typed number_typ
operand chr_fcn cnt = typed number_typ
operand exp_fcn cnt = typed number_typ
operand int_fcn cnt = typed number_typ
operand log_fcn cnt = typed number_typ
operand log10_fcn cnt = typed number_typ
operand mod_fcn cnt = typed number_typ
operand reccount_fcn cnt = typed number_typ
operand recsize_fcn cnt = typed number_typ
operand spellnum_fcn cnt = typed number_typ
operand sqrt_fcn cnt = typed number_typ
operand ttoc_fcn cnt = typed number_typ
operand _ cnt = any

module _ {R : Reals} where
  checked_operand : Env R → Stack R → Operand → Result (Stack R)
  checked_operand E s any = ok s
  checked_operand E s (typed t) = typechk E t s >>= λ _. ok s
  checked_operand E s (ranged low high) = pop_int E low high s >>= λ p. push_int E p.1 p.0

  -- `exe` is set while a command runs.
  unfoldable pub parm_chk : Env R → Bool → Stack R → Bool → Fcn → ℕ → Result (Stack R)
  unfolding count_ok operand checked_operand
  parm_chk E exe s final fcn cnt =
      if count_ok final fcn cnt
      then (if final || not exe then ok s else checked_operand E s (operand fcn cnt))
      else err invalid_parmcnt
