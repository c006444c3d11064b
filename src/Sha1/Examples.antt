-- ===== src/Sha1/Examples.antt =====
-- Runs of src/sha1.c, and its theorem at concrete chunks.
use ws_server.Base.{◌<◌, ◌≡◌, refl, [], ◌∷◌, ◌++◌, length, arith}
use ws_server.Sha1.Stream.{sha1_update-append}
use ws_server.Sha1.{
  Sha1, sha1_init, sha1, sha1_final, sha1_update, absorb, absorb_rest, sha1_block, add_words,
  rounds, round, round_k, round_f, not32, schedule, block_words, rotl32, zeroes, be_word, be_length,
}

-- "abc" and its digest, from FIPS 180-2.
abc :
    sha1 (97 ∷ 98 ∷ 99 ∷ [])
    ≡ 169 ∷ 153 ∷ 62 ∷ 54 ∷ 71 ∷ 6 ∷ 129 ∷ 106 ∷ 186 ∷ 62 ∷ 37 ∷ 113 ∷ 120 ∷ 80 ∷ 194 ∷ 108 ∷ 156
      ∷ 208 ∷ 216 ∷ 157 ∷ []
unfolding sha1 sha1_final sha1_update absorb absorb_rest sha1_block add_words rounds round round_k
    round_f not32 schedule block_words rotl32 zeroes be_word be_length
abc = refl

-- A state in which two bytes wait.
abbrev two_wait : Sha1
two_wait = record { h = sha1_init.h; total_len = 2; buf = 97 ∷ 98 ∷ [] }

sha1_update-append_example :
    (length (sha1_update two_wait (99 ∷ [])).buf < 64)
    × (sha1_update (sha1_update two_wait (99 ∷ [])) (100 ∷ [])
        ≡ sha1_update two_wait (99 ∷ [] ++ 100 ∷ []))
sha1_update-append_example = sha1_update-append two_wait (99 ∷ []) (100 ∷ []) (omega arith)
