-- ===== src/Limiter/Rule.antt =====
-- Allow is the rule on what the limiter remembers, whatever prune takes out of the map.
use cairnops.Common.{
  ℕ, suc, ◌≤◌, ◌≡◌, ◌≢◌, refl, ap, ◌∙◌, sym, subst, String, str_eq, eq_iff, Bool, true, false, none,
  some, List, [], ◌∷◌, ltb, length, select, not, Bool-cases, Option-cases, inl, inr,
}
use cairnops.Common.Int.{ℤ, pos, leb_ℤ}
use cairnops.Limiter.{
  RateWindow, Item, RateLimiter, lookup, put, is_over, prune, open_window, allow_bounded, allow,
}
use cairnops.Limiter.View.{
  unless_over, live, rule, IsMap, lookup-put_self, lookup-put_other, put-IsMap, lookup-select-none,
  select-IsMap, is_over_later, unless_over_gone,
}

lookup-select :
    (window : ℤ) (now later : ℕ) (q : String) (items : List Item)
    → now ≤ later
    → IsMap items
    → unless_over window later (lookup q (select (λ i. not (is_over window now i.value)) items))
      ≡ unless_over window later (lookup q items)
unfolding lookup unless_over
lookup-select window now later q [] h m = refl
lookup-select window now later q (i ∷ is) h m = elim (Bool-cases (is_over window now i.value)) [
  | inl over ↦ elim (Bool-cases (str_eq i.key q)) [
    | inl e ↦
        let gone : lookup q (select (λ j. not (is_over window now j.value)) is) ≡ none =
          lookup-select-none _ q is (subst (λ k. lookup k is ≡ none) ((eq_iff i.key q).0 e) m.0) in
        rw (over, e, gone)
          (sym
            (unless_over_gone window later i.value (is_over_later window now later i.value h over)))
    | inr e ↦ rw (over, e) (lookup-select window now later q is h m.1)
  ]
  | inr fresh ↦ elim (Bool-cases (str_eq i.key q)) [
    | inl e ↦ rw (fresh, e)
    | inr e ↦ rw (fresh, e) (lookup-select window now later q is h m.1)
  ]
]

live-prune :
    (window : ℤ) (now later : ℕ) (q : String) (items : List Item)
    → now ≤ later
    → IsMap items
    → unless_over window later (lookup q (prune window now items))
      ≡ unless_over window later (lookup q items)
unfolding prune
live-prune window now later q items h m = elim (Bool-cases (ltb (length items) 1024)) [
  | inl few ↦ rw few
  | inr many ↦ rw many (lookup-select window now later q items h m)
]

prune-IsMap :
    (window : ℤ) (now : ℕ) (items : List Item) → IsMap items → IsMap (prune window now items)
unfolding prune
prune-IsMap window now items m = elim (Bool-cases (ltb (length items) 1024)) [
  | inl few ↦ rw few m
  | inr many ↦ rw many (select-IsMap _ items m)
]

-- What an answer and the limiter behind it make of a request.
pub record IsRuled (key : String) (now : ℕ) (l : RateLimiter) (answer : Bool × RateLimiter)
    : Type 0 where
  pub answers : answer.0 ≡ (rule l.limit now (live now l key)).0
  pub counts :
      (later : ℕ)
      → now ≤ later
      → live later answer.1 key
        ≡ unless_over l.window later (some ((rule l.limit now (live now l key)).1))
  pub others :
      (later : ℕ) (q : String) → now ≤ later → q ≢ key → live later answer.1 q ≡ live later l q
  pub kept : IsMap answer.1.items
  pub limits : (answer.1.limit ≡ l.limit) × (answer.1.window ≡ l.window)

opened-IsRuled :
    (key : String) (now : ℕ) (l : RateLimiter)
    → IsMap l.items
    → live now l key ≡ none
    → IsRuled key now l (true, open_window key now l)
unfolding open_window
opened-IsRuled key now l m e =
    let first : RateWindow = record { started = now; count = 1 } in
    record {
      answers = rw e;
      counts = λ later h.
          live-prune l.window now later key (put key first l.items) h
            (put-IsMap key first l.items m)
          ∙ ap (unless_over l.window later) (lookup-put_self key first l.items)
          ∙ ap (λ o. unless_over l.window later (some (rule l.limit now o).1)) (sym e);
      others = λ later q h d.
          live-prune l.window now later q (put key first l.items) h (put-IsMap key first l.items m)
          ∙ ap (unless_over l.window later) (lookup-put_other key q first l.items d);
      kept = prune-IsMap l.window now (put key first l.items) (put-IsMap key first l.items m);
      limits = (refl, refl);
    }

counted-IsRuled :
    (key : String) (now : ℕ) (l : RateLimiter) (w : RateWindow)
    → IsMap l.items
    → lookup key l.items ≡ some w
    → live now l key ≡ some w
    → leb_ℤ l.limit (pos w.count) ≡ false
    → IsRuled key now l (
      true,
      record l { items = put key (record { started = w.started; count = suc w.count }) l.items },
    )
counted-IsRuled key now l w m e v c =
    let next : RateWindow = record { started = w.started; count = suc w.count } in
    record {
      answers = rw (v, c);
      counts =
          λ later h. ap (unless_over l.window later) (lookup-put_self key next l.items) ∙ rw (v, c);
      others =
          λ later q h d. ap (unless_over l.window later) (lookup-put_other key q next l.items d);
      kept = put-IsMap key next l.items m;
      limits = (refl, refl);
    }

refused-IsRuled :
    (key : String) (now : ℕ) (l : RateLimiter) (w : RateWindow)
    → IsMap l.items
    → lookup key l.items ≡ some w
    → live now l key ≡ some w
    → leb_ℤ l.limit (pos w.count) ≡ true
    → IsRuled key now l (false, l)
refused-IsRuled key now l w m e v c = record {
  answers = rw (v, c);
  counts = λ later h. ap (unless_over l.window later) e ∙ rw (v, c);
  others = λ later q h d. refl;
  kept = m;
  limits = (refl, refl);
}

allow_bounded-IsRuled :
    (key : String) (now : ℕ) (l : RateLimiter)
    → IsMap l.items
    → IsRuled key now l (allow_bounded key now l)
unfolding allow_bounded unless_over
allow_bounded-IsRuled key now l m = elim (Option-cases (lookup key l.items)) [
  | inl e ↦ rw (allow_bounded, e) (opened-IsRuled key now l m (rw e))
  | inr (w, e) ↦ elim (Bool-cases (is_over l.window now w)) [
    | inl o ↦ rw (allow_bounded, e, o) (opened-IsRuled key now l m (rw (e, o)))
    | inr o ↦ elim (Bool-cases (leb_ℤ l.limit (pos w.count))) [
      | inl c ↦ rw (allow_bounded, e, o, c) (refused-IsRuled key now l w m e (rw (e, o)) c)
      | inr c ↦ rw (allow_bounded, e, o, c) (counted-IsRuled key now l w m e (rw (e, o)) c)
    ]
  ]
]

-- Where the limit and the window are positive and the map has one row for each key, Allow answers by what it
-- remembers of the key at that instant: no window or one that is over opens a new window and passes, an open
-- one passes and counts up to the limit. From then on the limiter remembers that window of this key, what it
-- remembered of every other, and keeps one row for each key, whatever rows prune deletes.
pub allow-IsRuled :
    (key : String) (now : ℕ) (l : RateLimiter)
    → leb_ℤ l.limit (pos 0) ≡ false
    → leb_ℤ l.window (pos 0) ≡ false
    → IsMap l.items
    → IsRuled key now l (allow key now l)
unfolding allow
allow-IsRuled key now l p q m = rw (allow, p, q) (allow_bounded-IsRuled key now l m)
