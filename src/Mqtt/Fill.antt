-- ===== src/Mqtt/Fill.antt =====
-- One pass over the free connections: how it distributes the topics.
use redstone_oracles_monorep.Prelude.{
  ℕ, suc, ◌+◌, ◌-◌, ◌<◌, ◌≤◌, String, true, List, [], ◌∷◌, ◌++◌, if◌then◌else◌, All, take, drop,
  length, length-append, length-take, length-drop, take-append-drop, ltb, str_eq, ◌≡◌, ap, ◌∙◌, sym,
  arith, Bool-cases, inl, inr,
}
use redstone_oracles_monorep.Mqtt.PubSub.{Connection, has_free, fill}

-- How often a topic stands in a list, and in the lists of all connections.
abbrev pub count : String → List String → ℕ
count topic [] = 0
count topic (t ∷ ts) = let rest = count topic ts in if str_eq t topic then suc rest else rest

abbrev pub count_all : String → List Connection → ℕ
count_all topic [] = 0
count_all topic (c ∷ connections) = count topic c.topics + count_all topic connections

abbrev pub IsBounded : ℕ → List Connection → Type 0
IsBounded limit connections = All (λ c. length c.topics ≤ limit) connections

pub count-append :
    (topic : String) (xs ys : List String)
    → count topic (xs ++ ys) ≡ count topic xs + count topic ys
count-append topic [] ys = omega arith
count-append topic (x ∷ xs) ys = ground (arith, count-append topic xs ys)

pub count-take-drop :
    (topic : String) (n : ℕ) (xs : List String)
    → count topic (take n xs) + count topic (drop n xs) ≡ count topic xs
count-take-drop topic n xs =
    sym (count-append topic (take n xs) (drop n xs)) ∙ ap (count topic) (take-append-drop n xs)

pub fill-count :
    (limit : ℕ) (connections : List Connection) (topics : List String) (topic : String)
    → count_all topic (fill limit connections topics).connections
        + count topic (fill limit connections topics).rest
      ≡ count_all topic connections + count topic topics
unfolding fill
fill-count limit [] topics topic = omega arith
fill-count limit (c ∷ connections) topics topic =
    let space = limit - length c.topics in
    elim (Bool-cases (ltb (length c.topics) limit)) [
      | inl free ↦ rw free (
          omega (
            arith,
            count-append topic c.topics (take space topics),
            count-take-drop topic space topics,
            fill-count limit connections (drop space topics) topic,
          ))
      | inr full ↦ rw full (omega (arith, fill-count limit connections topics topic))
    ]

pub fill-IsBounded :
    (limit : ℕ) (connections : List Connection) (topics : List String)
    → IsBounded limit connections
    → IsBounded limit (fill limit connections topics).connections
unfolding fill
fill-IsBounded limit [] topics h = tt
fill-IsBounded limit (c ∷ connections) topics h =
    let space = limit - length c.topics in
    elim (Bool-cases (ltb (length c.topics) limit)) [
      | inl free ↦ rw free (
        omega (arith, h.0, length-append c.topics (take space topics), length-take space topics),
        fill-IsBounded limit connections (drop space topics) h.1,
      )
      | inr full ↦ rw full (h.0, fill-IsBounded limit connections topics h.1)
    ]

pub length-fill_rest :
    (limit : ℕ) (connections : List Connection) (topics : List String)
    → length (fill limit connections topics).rest ≤ length topics
unfolding fill
length-fill_rest limit [] topics = omega arith
length-fill_rest limit (c ∷ connections) topics =
    let space = limit - length c.topics in
    elim (Bool-cases (ltb (length c.topics) limit)) [
      | inl free ↦ rw free (
          omega (
            arith,
            length-drop space topics,
            length-fill_rest limit connections (drop space topics),
          ))
      | inr full ↦ rw full (length-fill_rest limit connections topics)
    ]

-- A pass with a free connection takes a topic, if there is one.
pub fill_progress :
    (limit : ℕ) (connections : List Connection) (topics : List String)
    → has_free limit connections ≡ true
    → length (fill limit connections topics).rest ≤ length topics - 1
unfolding fill
fill_progress limit [] topics h = cc
fill_progress limit (c ∷ connections) topics h =
    let space = limit - length c.topics in
    elim (Bool-cases (ltb (length c.topics) limit)) [
      | inl free ↦
          let room : length c.topics < limit = ground (arith, free) in
          rw free (
            omega (
              arith,
              room,
              length-drop space topics,
              length-fill_rest limit connections (drop space topics),
            ))
      | inr full ↦ rw full (fill_progress limit connections topics (ground arith))
    ]
