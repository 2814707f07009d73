-- ===== src/Mqtt/Chunks.antt =====
-- A `chunk` that has the laws, and publishing at a concrete input.
use redstone_oracles_monorep.Prelude.{
  ℕ, zero, suc, ◌+◌, ◌/◌, ◌≤◌, List, [], ◌∷◌, ◌++◌, ok, All, length, take, drop, length-take,
  length-drop, take-append-drop, ◌≡◌, refl, ap, ◌∙◌, arith,
}
use redstone_oracles_monorep.Mqtt.PubSub.{MultiPubSubClient, PubSubPayload}
use redstone_oracles_monorep.Mqtt.Publish.{publish, IsChunk, IsPublished, publish-IsPublished, join}

-- Chunks of `size`, for a fuel of at least the length.
abbrev chunks_of : ℕ → List PubSubPayload → ℕ → List (List PubSubPayload)
chunks_of zero xs size = []
chunks_of (suc fuel) [] size = []
chunks_of (suc fuel) (x ∷ xs) size = take size (x ∷ xs) ∷ chunks_of fuel (drop size (x ∷ xs)) size

abbrev chunk_list : List PubSubPayload → ℕ → List (List PubSubPayload)
chunk_list xs size = chunks_of (length xs) xs size

join-chunks_of :
    (fuel : ℕ) (xs : List PubSubPayload) → length xs ≤ fuel → join (chunks_of fuel xs 100) ≡ xs
join-chunks_of zero [] h = refl
join-chunks_of zero (x ∷ xs) h = absurd (omega arith)
join-chunks_of (suc fuel) [] h = refl
join-chunks_of (suc fuel) (x ∷ xs) h =
    ap (λ rest. take 100 (x ∷ xs) ++ rest)
      (join-chunks_of fuel (drop 100 (x ∷ xs)) (omega (arith, length-drop 100 (x ∷ xs))))
    ∙ take-append-drop 100 (x ∷ xs)

length-chunks_of :
    (fuel : ℕ) (xs : List PubSubPayload)
    → length xs ≤ fuel
    → length (chunks_of fuel xs 100) ≡ (length xs + 99) / 100
length-chunks_of zero [] h = omega arith
length-chunks_of zero (x ∷ xs) h = absurd (omega arith)
length-chunks_of (suc fuel) [] h = omega arith
length-chunks_of (suc fuel) (x ∷ xs) h = omega (
  arith,
  length-drop 100 (x ∷ xs),
  length-chunks_of fuel (drop 100 (x ∷ xs)) (omega (arith, length-drop 100 (x ∷ xs))),
)

chunks_of-All :
    (fuel : ℕ) (xs : List PubSubPayload) → All (λ c. length c ≤ 100) (chunks_of fuel xs 100)
chunks_of-All zero xs = tt
chunks_of-All (suc fuel) [] = tt
chunks_of-All (suc fuel) (x ∷ xs) =
    (omega (arith, length-take 100 (x ∷ xs)), chunks_of-All fuel (drop 100 (x ∷ xs)))

chunk_list-IsChunk : IsChunk chunk_list
chunk_list-IsChunk = record {
  joined = λ xs. join-chunks_of (length xs) xs (omega arith);
  counted = λ xs. length-chunks_of (length xs) xs (omega arith);
  bounded = λ xs. chunks_of-All (length xs) xs;
}

abbrev no_clients : MultiPubSubClient
no_clients = record { client_to_topics = []; publish_clients = []; created = 0; calls = [] }

abbrev two_payloads : List PubSubPayload
two_payloads = record { topic = "a"; payload = "1" } ∷ record { topic = "b"; payload = "2" } ∷ []

publish-IsPublished_example :
    (after : MultiPubSubClient) × (publish chunk_list no_clients two_payloads ≡ ok after)
    × IsPublished no_clients two_payloads after
publish-IsPublished_example =
    publish-IsPublished chunk_list chunk_list-IsChunk no_clients two_payloads
