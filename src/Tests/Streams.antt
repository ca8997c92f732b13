-- ===== src/Tests/Streams.antt =====
-- The theorems on numbers and streams of octets at concrete octets.
use spdz_yao.Base.{ℕ, ◌%◌, ◌*◌, ◌^◌, ◌≡◌, refl, List, [], ◌∷◌, ok, arith}
use spdz_yao.Tools.Length.{encode_from, too_large, encode_length}
use spdz_yao.Tools.OctetStream.{OctetStream, empty_stream, append, store_int, get_int}
use spdz_yao.Tools.OctetStream.Content.{content, unread, Valid}
use spdz_yao.Tools.OctetStream.Laws.{Appended, append-Appended}
use spdz_yao.Tools.OctetStream.Numbers.{get_int-store_int}

abbrev octets_1000 : List ℕ
octets_1000 = 232 ∷ 3 ∷ 0 ∷ 0 ∷ []

-- Two octets of which one has been read, in a buffer of four.
abbrev half_read : OctetStream
half_read = record { octets = 7 ∷ 8 ∷ 0 ∷ 0 ∷ []; len = 2; ptr = 1 }

half_read-Valid : Valid half_read
half_read-Valid = (omega arith, omega arith)

append-Appended_example : Appended half_read (1 ∷ 2 ∷ 3 ∷ []) (append (1 ∷ 2 ∷ 3 ∷ []) half_read)
append-Appended_example = append-Appended (1 ∷ 2 ∷ 3 ∷ []) half_read half_read-Valid (omega arith)

get_int-store_int_example :
    (os' : OctetStream) × (os'' : OctetStream) × (store_int 1000 4 empty_stream ≡ ok os')
    × (get_int 4 os' ≡ ok (1000 % 2 ^ (8 * 4), os''))
    × (unread os'' ≡ [])
    × Valid os''
unfolding unread content encode_length too_large encode_from
get_int-store_int_example =
    get_int-store_int 1000 4 empty_stream octets_1000 (omega arith, omega arith) refl (omega arith)
      refl
