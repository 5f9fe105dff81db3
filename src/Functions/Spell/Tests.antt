-- ===== src/Functions/Spell/Tests.antt =====
-- The words of a number, written and read.
use db3w.Common.{◌≡◌, refl, some, ◌>>=◌}
use db3w.Common.Text.{codes}
use db3w.Functions.Spell.{numspell, size, words_text, spelling}
use db3w.Functions.Spell.Dictionary.{read_text}

numspell_1234 :
    (numspell 1235 1234 >>= λ ws. words_text ws)
    ≡ some (codes "one thousand two hundred thirty four ")
unfolding numspell size words_text spelling
numspell_1234 = refl

read_1234 : read_text (codes "one thousand two hundred thirty four ") ≡ some 1234
read_1234 = refl
