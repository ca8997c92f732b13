-- ===== src/Tests/Commitments.antt =====
-- Commitments of Tools/Commit.cpp by the identity in place of a hash.
use spdz_yao.Base.{ℕ, ◌≡◌, ◌≢◌, refl, true, false, List, [], ◌∷◌, length, ok, arith}
use spdz_yao.Base.{sym, ap, some}
use spdz_yao.Tools.OctetStream.{
  OctetStream, empty_stream, append, append_no_resize, resize, resize_precise, reset_write_head,
}
use spdz_yao.Tools.OctetStream.Content.{content}
use spdz_yao.Tools.Commit.{
  commit, open_commitment, take_message, hash_stream, stream_equals, same_octets, bytes_to_int,
  octets_from,
}
use spdz_yao.Auth.Seeds.{create_random_seed}
use spdz_yao.Auth.Seeds.Agreement.{Sent, all_sent, sent, xor_all, create_random_seed-xor}
use spdz_yao.Tools.Commit.Opening.{open-commit}
use spdz_yao.Tools.Commit.Binding.{binding}

abbrev same : List ℕ → List ℕ
same xs = xs

abbrev seven_eight : List ℕ
seven_eight = 7 ∷ 8 ∷ []

abbrev own : ℕ
own = 1

abbrev hello : OctetStream
hello = record { octets = 5 ∷ 6 ∷ []; len = 2; ptr = 0 }

content-hello : length (content hello) ≡ 2
unfolding content
content-hello = refl

open-commit_example :
    (comm : OctetStream) × (opening : OctetStream) × (commit same seven_eight empty_stream hello 1
      ≡ ok (comm, opening))
    × (own ≢ 2 → open_commitment same 2 empty_stream comm opening 2 ≡ ok (false, empty_stream))
    × (os' : OctetStream) × (open_commitment same 2 empty_stream comm opening 1 ≡ ok (true, os'))
    × (content os' ≡ content hello)
open-commit_example =
    open-commit same 2 seven_eight empty_stream empty_stream hello 1 2 (omega arith, omega arith)
      refl (omega arith) refl (omega (arith, content-hello))

abbrev opening_one : OctetStream
opening_one = record { octets = 1 ∷ 0 ∷ 0 ∷ 0 ∷ 5 ∷ 6 ∷ 7 ∷ 8 ∷ []; len = 8; ptr = 0 }

abbrev opened : OctetStream
opened = record { octets = 5 ∷ 6 ∷ 0 ∷ 0 ∷ []; len = 2; ptr = 0 }

opens_one : open_commitment same 2 empty_stream opening_one opening_one 1 ≡ ok (true, opened)
unfolding open_commitment take_message hash_stream stream_equals same_octets bytes_to_int
    octets_from content append append_no_resize resize resize_precise reset_write_head
opens_one = refl

binding_example : content opened ≡ content opened
binding_example =
    binding same 2 1 empty_stream opening_one opening_one opening_one opened opened
      (omega arith, omega arith) (omega arith, omega arith) (omega arith) (omega arith)
      (omega arith) (omega arith) (λ e. e) opens_one opens_one

abbrev opening_zero : OctetStream
opening_zero = record { octets = 0 ∷ 0 ∷ 0 ∷ 0 ∷ 9 ∷ 3 ∷ 7 ∷ 8 ∷ []; len = 8; ptr = 0 }

abbrev opened_zero : OctetStream
opened_zero = record { octets = 9 ∷ 3 ∷ 0 ∷ 0 ∷ []; len = 2; ptr = 0 }

opens_zero :
    open_commitment same 2 empty_stream opening_zero opening_zero 0 ≡ ok (true, opened_zero)
unfolding open_commitment take_message hash_stream stream_equals same_octets bytes_to_int
    octets_from content append append_no_resize resize resize_precise reset_write_head
opens_zero = refl

abbrev both_views : List (OctetStream × OctetStream)
both_views = (opening_zero, opening_zero) ∷ (opening_one, opening_one) ∷ []

both-Sent : Sent same 2 2 0 both_views (content opened_zero ∷ content opened ∷ [])
unfolding content
both-Sent = sent opens_zero refl (sent opens_one refl all_sent)

own_octets : content (record { octets = 9 ∷ 3 ∷ []; len = 2; ptr = 0 }) ≡ content opened_zero
unfolding content
own_octets = refl

create_random_seed-xor_example :
    create_random_seed same 2 0 (record { octets = 9 ∷ 3 ∷ []; len = 2; ptr = 0 }) 2 both_views
    ≡ ok (xor_all (0 ∷ 0 ∷ []) (content opened_zero ∷ content opened ∷ []))
create_random_seed-xor_example =
    create_random_seed-xor same 2 0 2 (record { octets = 9 ∷ 3 ∷ []; len = 2; ptr = 0 }) both_views
      (content opened_zero ∷ content opened ∷ []) both-Sent (omega arith) (ap some (sym own_octets))
