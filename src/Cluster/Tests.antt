-- ===== src/Cluster/Tests.antt =====
-- Runs of the cluster packages, and the theorems at concrete messages.
use skynet_athena.Cluster.{
  begin, concat, error, fill_header, fill_uint32, final, framed, middle, multi_part, next_session,
  number, packreq, packreq_multi, packreq_number, packrequest, packresponse, part_count, request,
  unpackrequest, unpackresponse,
}
use skynet_athena.Cluster.Request.{sent_session, unpackrequest-number}
use skynet_athena.Cluster.Parts.{pieces, texts}
use skynet_athena.Cluster.Response.{answers, unpackresponse-error, unpackresponse-parts}
use skynet_athena.Netpack
use skynet_athena.Base.{
  Bool, List, [], arith, drop, false, if◌then◌else◌, length, length-replicate, map, refl, replicate,
  some, take, true, ℕ, ◌%◌, ◌^◌, ◌∷◌, ◌≡◌,
}

abbrev hello : List ℕ
hello = 104 ∷ 105 ∷ []

packrequest_run :
    packrequest (number 258) 7 (some hello) false
    ≡ some (0 ∷ 11 ∷ 0 ∷ 2 ∷ 1 ∷ 0 ∷ 0 ∷ 7 ∷ 0 ∷ 0 ∷ 0 ∷ hello, 8, [])
unfolding packrequest packreq packreq_number packreq_multi framed fill_header fill_uint32
    next_session
packrequest_run = refl

unpackrequest-number_example :
    (body : List ℕ) × (wire : List ℕ) × (packrequest (number 258) 7 (some hello) true
      ≡ some (wire, next_session 7, []))
    × (Netpack.pack body ≡ some wire)
    × (unpackrequest body ≡ some (request (number (258 % 2 ^ 32)) (sent_session 7 true) hello true))
unpackrequest-number_example =
    unpackrequest-number 258 7 hello true (omega arith) (omega arith) (omega arith)

abbrev long_message : List ℕ
long_message = replicate 40000 9

long_length : length long_message ≡ 40000
long_length = length-replicate {A = ℕ} 40000 9

unpackresponse-error_example :
    (p : List ℕ) × (packresponse 7 false hello ≡ some (p ∷ []))
    × (unpackresponse (drop 2 p) ≡ some (7, error (take multi_part hello)))
unpackresponse-error_example = unpackresponse-error 7 hello (omega arith)

unpackresponse-parts_example :
    (first : List ℕ) × (ps : List (List ℕ)) × (packresponse 7 true long_message ≡ some (first ∷ ps))
    × (unpackresponse (drop 2 first) ≡ some (7, begin (length long_message)))
    × (answers ps
        ≡ map
            (λ (c : List ℕ × Bool). some (7, if c.1 then middle c.0 else final c.0))
            (pieces (part_count (length long_message)) long_message))
    × (concat (length long_message) (texts (pieces (part_count (length long_message)) long_message))
        ≡ some long_message)
unpackresponse-parts_example =
    unpackresponse-parts 7 long_message (omega arith) (omega (arith, long_length))
      (omega (arith, long_length))
