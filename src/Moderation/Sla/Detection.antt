-- ===== src/Moderation/Sla/Detection.antt =====
-- What the alerts of moderation/tasks.py report.
use mathlib.Core.Path.{subst}
use cavallo_app.Moderation.Records.{Priority, ModerationQueue, Store}
use cavallo_app.Moderation.Sla.{
  sentry_max_item_ids, Alert, normal_sla, newest_first, fast_path_sla, sla_line, is_breach,
  check_moderation_sla, breaches, alert_sla_breach, SlaLine, Severity,
}
use cavallo_app.Prelude.{
  length-take-le, take, sym, suc, ◌≤◌, ap, Option, any-append, refl, ◌||◌, any-sort, [], ◌∙◌, some,
  arith, ◌∷◌, none, count, ◌+◌, ◌&&◌, ◌≡◌, sort, map, insert, filter, length, any, ◌==◌, List, ℕ,
  Bool,
}

length-insert {ℓ} :
    {A : Type ℓ} (before : A → A → Bool) (x : A) (ys : List A)
    → length (insert before x ys) ≡ 1 + length ys
length-insert before x [] = refl
length-insert before x (y ∷ ys) = ground (arith, length-insert before x ys)

length-sort {ℓ} :
    {A : Type ℓ} (before : A → A → Bool) (xs : List A) → length (sort before xs) ≡ length xs
length-sort before [] = refl
length-sort before (x ∷ xs) =
    ground (arith, length-insert before x (sort before xs), length-sort before xs)

length-filter {ℓ} : {A : Type ℓ} (p : A → Bool) (xs : List A) → length (filter p xs) ≡ count p xs
length-filter p [] = refl
length-filter p (x ∷ xs) = ground (arith, length-filter p xs)

-- a line about an item, in a tier
abbrev about : ℕ → SlaLine → Bool
about k line = line.queue_item_id == k

any-map-line :
    (now : ℕ) (s : Severity) (threshold k : ℕ) (items : List ModerationQueue)
    → any (about k) (map (sla_line now s threshold) items) ≡ any (λ i. i.pk == k) items
any-map-line now s threshold k [] = refl
any-map-line now s threshold k (i ∷ items) = ground (arith, any-map-line now s threshold k items)

any-filter {ℓ} :
    {A : Type ℓ} (q p : A → Bool) (xs : List A) → any q (filter p xs) ≡ any (λ x. p x && q x) xs
any-filter q p [] = refl
any-filter q p (x ∷ xs) = ground (arith, any-filter q p xs)

length-map {ℓ κ} :
    {A : Type ℓ} {B : Type κ} (f : A → B) (xs : List A) → length (map f xs) ≡ length xs
length-map f [] = refl
length-map f (x ∷ xs) = ap suc (length-map f xs)

module _ (now : ℕ) (store : Store) where
  breaches-count :
      (threshold : ℕ) (p : Priority)
      → length (breaches now threshold p store) ≡ count (is_breach now threshold p) store.queue
  unfolding breaches
  breaches-count threshold p =
      length-sort newest_first (filter (is_breach now threshold p) store.queue)
      ∙ length-filter (is_breach now threshold p) store.queue

  lines_about :
      (s : Severity) (threshold : ℕ) (p : Priority) (k : ℕ)
      → any (about k) (map (sla_line now s threshold) (breaches now threshold p store))
        ≡ any (λ i. is_breach now threshold p i && i.pk == k) store.queue
  unfolding breaches
  lines_about s threshold p k =
      any-map-line now s threshold k (breaches now threshold p store)
      ∙ any-sort newest_first (λ i. i.pk == k) (filter (is_breach now threshold p) store.queue)
      ∙ any-filter (λ i. i.pk == k) (is_breach now threshold p) store.queue

  -- the alert of a tier with so many breaches
  abbrev pub IsAlert : Priority → ℕ → Option Alert → Type 0
  IsAlert p n none = n ≡ 0
  IsAlert p n (some alert) =
      (1 ≤ n)
      × (alert.priority ≡ p)
      × (alert.breach_count ≡ n)
      × (length alert.queue_item_ids ≤ sentry_max_item_ids)

  alert_sla_breach-IsAlert :
      (items : List ModerationQueue) (p : Priority)
      → IsAlert p (length items) (alert_sla_breach items now p)
  unfolding alert_sla_breach
  alert_sla_breach-IsAlert [] p = refl
  alert_sla_breach-IsAlert (i ∷ items) p = (
    omega arith,
    refl,
    refl,
    subst (λ n. n ≤ sentry_max_item_ids)
        (sym (length-map (λ q. q.pk) (take sentry_max_item_ids (i ∷ items))))
        (length-take-le sentry_max_item_ids (i ∷ items)),
  )

  -- The check writes a line about a queue row exactly if a row with its key is pending beyond the
  -- limit of its tier; it counts each tier's late rows; and a tier has an alert exactly if there is
  -- such a row, which names the tier, carries their number and lists 20 keys at most.
  pub check_moderation_sla_lem :
      (k : ℕ)
      → let report = check_moderation_sla now store in
        (any (λ line. line.queue_item_id == k) report.lines ≡ (
          any (λ i. is_breach now fast_path_sla Priority.fast_path i && i.pk == k) store.queue
          || any (λ i. is_breach now normal_sla Priority.normal i && i.pk == k) store.queue))
        × (report.fast_path_breaches
            ≡ count (is_breach now fast_path_sla Priority.fast_path) store.queue)
        × (report.normal_breaches ≡ count (is_breach now normal_sla Priority.normal) store.queue)
        × IsAlert Priority.fast_path report.fast_path_breaches report.fast_path_alert
        × IsAlert Priority.normal report.normal_breaches report.normal_alert
  unfolding check_moderation_sla
  check_moderation_sla_lem k =
      let fast = breaches now fast_path_sla Priority.fast_path store in
      let slow = breaches now normal_sla Priority.normal store in
      (
        ground (
          arith,
          any-append (about k) (map (sla_line now Severity.urgent fast_path_sla) fast)
              (map (sla_line now Severity.warning normal_sla) slow),
          lines_about Severity.urgent fast_path_sla Priority.fast_path k,
          lines_about Severity.warning normal_sla Priority.normal k,
        ),
        breaches-count fast_path_sla Priority.fast_path,
        breaches-count normal_sla Priority.normal,
        alert_sla_breach-IsAlert fast Priority.fast_path,
        alert_sla_breach-IsAlert slow Priority.normal,
      )
