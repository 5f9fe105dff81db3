-- ===== src/Functions/Codes.antt =====
-- include/hbkwdef.h: the codes of the functions, by which the table `fcn` of server/hb/fcn.c is read.
pub data Fcn : Type 0 where
  abs_fcn alias_fcn asc_fcn at_fcn atroot_fcn auth_fcn between_fcn bof_fcn cdow_fcn chr_fcn : Fcn
  cid_fcn cmonth_fcn crypt_fcn ctod_fcn date_fcn day_fcn dbf_fcn defined_fcn deleted_fcn : Fcn
  disksize_fcn diskspace_fcn dow_fcn dtoc_fcn eof_fcn epoch_fcn exp_fcn fault_fcn fieldcnt_fcn : Fcn
  fieldname_fcn fieldno_fcn fieldsize_fcn file_fcn filter_fcn flock_fcn found_fcn hash_fcn : Fcn
  iif_fcn index_fcn inlist_fcn int_fcn isalpha_fcn isdigit_fcn isempty_fcn islower_fcn isnull_fcn :
      Fcn
  isupper_fcn key_fcn left_fcn len_fcn locate_fcn log_fcn log10_fcn lower_fcn ltrim_fcn max_fcn :
      Fcn
  min_fcn mktmp_fcn mod_fcn month_fcn ndx_fcn occurs_fcn padc_fcn padl_fcn padr_fcn parent_fcn : Fcn
  path_fcn peer_fcn pi_fcn proper_fcn rand_fcn randstr_fcn reccount_fcn recno_fcn recsize_fcn : Fcn
  replicate_fcn right_fcn rlock_fcn round_fcn rtrim_fcn serial_fcn soundex_fcn space_fcn : Fcn
  spellnum_fcn sqrt_fcn str_fcn stuff_fcn substr_fcn system_fcn time_fcn timestr_fcn ttoc_fcn : Fcn
  type_fcn upper_fcn whoami_fcn wok_fcn val_fcn year_fcn : Fcn
