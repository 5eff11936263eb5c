-- ===== src/Plugin/Advertised.antt =====
-- The methods that src/plugin.rs advertises, against those that it dispatches.
use text.Mathlib.Text.{starts_with}
use animus_queue_default.Common.{
  ◌≡◌, ◌⊎◌, refl, String, Bool, true, false, List, [], ◌∷◌, arith, ◌==◌, any, not, map, ◌++◌, sym,
  subst, Bool-cases, inl, inr, if◌then◌else◌, eq_iff,
}
use animus_queue_default.Plugin.Initialize.{queue_methods}
use animus_queue_default.Plugin.Requests.{
  queue_arms, QueueMethod, queue, Arm, initialize, initialized, ping, health_check, shutdown, exit,
  notification, unknown, arm_of, queue_arm,
}

-- The arm answers for a method that the plugin advertises.
abbrev pub is_served : Arm → Bool
is_served health_check = true
is_served (queue method) = true
is_served initialize = false
is_served initialized = false
is_served ping = false
is_served shutdown = false
is_served exit = false
is_served notification = false
is_served unknown = false

abbrev pub is_advertised : String → Bool
is_advertised method = any (λ name. method == name) queue_methods

-- A name that is equal to one of some names shares what they have in common.
any_shared :
    (p : String → Bool) (name : String) (names : List String)
    → any (λ n. not (p n)) names ≡ false
    → any (λ n. name == n) names ≡ true
    → p name ≡ true
any_shared p name [] h e = cc
any_shared p name (n ∷ names) h e = elim (Bool-cases (name == n)) [
  | inl s ↦ subst (λ m. p m ≡ true) (sym ((eq_iff name n).0 s)) (ground (arith, h))
  | inr s ↦ any_shared p name names (ground (arith, h)) (ground (arith, e, s))
]

queue_arm-any :
    (method : String) (arms : List (String × QueueMethod))
    → is_served (queue_arm method arms) ≡ true
    → any (λ name. method == name) (map (λ (arm : String × QueueMethod). arm.0) arms) ≡ true
unfolding queue_arm
queue_arm-any method [] h = cc
queue_arm-any method ((name, arm) ∷ arms) h = ground (arith, queue_arm-any method arms)

any_before :
    (p : String → Bool) (names : List String) (last : String)
    → any p names ≡ true
    → any p (names ++ last ∷ []) ≡ true
any_before p [] last h = cc
any_before p (n ∷ names) last h = ground (arith, any_before p names last)

any_last :
    (p : String → Bool) (names : List String) (last : String)
    → p last ≡ true
    → any p (names ++ last ∷ []) ≡ true
any_last p [] last h = ground arith
any_last p (n ∷ names) last h = ground (arith, any_last p names last)

-- The arms that stand before those of the queue.
served_before :
    (first second third health fourth fifth sixth : Bool) (rest : Arm)
    → is_served (
        if first
        then initialize
        else if second
        then initialized
        else if third
        then ping
        else if health
        then health_check
        else if fourth
        then shutdown
        else if fifth
        then exit
        else if sixth
        then notification
        else rest)
      ≡ true
    → (health ≡ true) ⊎ (is_served rest ≡ true)
served_before first second third health fourth fifth sixth rest h = ground arith

served_by :
    (method : String)
    → is_served (arm_of method) ≡ true
    → ((method == "health/check") ≡ true) ⊎ (is_served (queue_arm method queue_arms) ≡ true)
unfolding arm_of
served_by method h =
    served_before (method == "initialize") (method == "initialized") (method == "$/ping")
      (method == "health/check") (method == "shutdown") (method == "exit") (starts_with method "$/")
      (queue_arm method queue_arms) h

served_is-advertised :
    (method : String) → is_served (arm_of method) ≡ true → is_advertised method ≡ true
served_is-advertised method h =
    let names = map (λ (arm : String × QueueMethod). arm.0) queue_arms in
    elim (served_by method h) [
      | inl e ↦ any_last (λ name. method == name) names "health/check" e
      | inr e ↦
          any_before (λ name. method == name) names "health/check"
            (queue_arm-any method queue_arms e)
    ]

advertised_is-served :
    (method : String) → is_advertised method ≡ true → is_served (arm_of method) ≡ true
unfolding arm_of queue_arm
advertised_is-served method e =
    any_shared (λ name. is_served (arm_of name)) method queue_methods refl e

both_ways : (a b : Bool) → (a ≡ true → b ≡ true) → (b ≡ true → a ≡ true) → a ≡ b
both_ways true b f g = sym (f refl)
both_ways false true f g = g refl
both_ways false false f g = refl

-- The methods that the manifest and `initialize` advertise are those that the dispatch has an arm
-- for: the eighteen of the queue, and the health check.
pub is_advertised-served : (method : String) → is_advertised method ≡ is_served (arm_of method)
is_advertised-served method =
    both_ways (is_advertised method) (is_served (arm_of method)) (advertised_is-served method)
      (served_is-advertised method)
