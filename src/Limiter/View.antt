-- ===== src/Limiter/View.antt =====
-- What the limiter remembers of a key: its window, as long as it is not over. Pruning forgets no more.
use cairnops.Common.{
  ℕ, suc, ◌≤◌, ◌≡◌, ◌≢◌, refl, ◌∙◌, sym, subst, String, str_eq, eq_iff, Bool, true, false, Option,
  none, some, List, [], ◌∷◌, if◌then◌else◌, select, arith, Bool-cases, inl, inr,
}
use cairnops.Common.Int.{ℤ, pos, negsuc, leb_ℤ, sub_time}
use cairnops.Limiter.{RateWindow, Item, RateLimiter, lookup, put, is_over}

-- The window, unless it is over.
unfoldable pub unless_over : ℤ → ℕ → Option RateWindow → Option RateWindow
unless_over window now none = none
unless_over window now (some w) = if is_over window now w then none else some w

abbrev pub live : ℕ → RateLimiter → String → Option RateWindow
live now l key = unless_over l.window now (lookup key l.items)

-- The rule without a map: a request opens a window, or is counted in it up to the limit.
abbrev pub rule : ℤ → ℕ → Option RateWindow → Bool × RateWindow
rule limit now none = (true, record { started = now; count = 1 })
rule limit now (some w) =
    if leb_ℤ limit (pos w.count)
    then (false, w)
    else (true, record { started = w.started; count = suc w.count })

str_refl : (s : String) → str_eq s s ≡ true
str_refl s = (eq_iff s s).1 refl

str_ne : (s t : String) → s ≢ t → str_eq s t ≡ false
str_ne s t d = elim (Bool-cases (str_eq s t)) [ inl e ↦ absurd (d ((eq_iff s t).0 e)) | inr e ↦ e ]

pub lookup-put_self :
    (key : String) (w : RateWindow) (items : List Item) → lookup key (put key w items) ≡ some w
unfolding lookup put
lookup-put_self key w [] = rw (str_refl key)
lookup-put_self key w (i ∷ is) = elim (Bool-cases (str_eq i.key key)) [
  | inl e ↦ rw (e, str_refl key)
  | inr e ↦ rw (e, e) (lookup-put_self key w is)
]

pub lookup-put_other :
    (key q : String) (w : RateWindow) (items : List Item)
    → q ≢ key
    → lookup q (put key w items) ≡ lookup q items
unfolding lookup put
lookup-put_other key q w [] d = rw (str_ne key q (λ e. d (sym e)))
lookup-put_other key q w (i ∷ is) d = elim (Bool-cases (str_eq i.key key)) [
  | inl e ↦
      rw
        (e, str_ne key q (λ f. d (sym f)), str_ne i.key q (λ f. d (sym f ∙ (eq_iff i.key key).0 e)))
  | inr e ↦ elim (Bool-cases (str_eq i.key q)) [
    | inl f ↦ rw (e, f)
    | inr f ↦ rw (e, f) (lookup-put_other key q w is d)
  ]
]

-- Each key has one row.
abbrev pub IsMap : List Item → Type 0
IsMap [] = Unit
IsMap (i ∷ is) = (lookup i.key is ≡ none) × IsMap is

pub put-IsMap :
    (key : String) (w : RateWindow) (items : List Item) → IsMap items → IsMap (put key w items)
unfolding put lookup
put-IsMap key w [] h = (refl, tt)
put-IsMap key w (i ∷ is) h = elim (Bool-cases (str_eq i.key key)) [
  | inl e ↦ rw e (subst (λ k. lookup k is ≡ none) ((eq_iff i.key key).0 e) h.0, h.1)
  | inr e ↦ rw e (
    lookup-put_other key i.key w is (λ f. cc (sym e ∙ (eq_iff i.key key).1 f)) ∙ h.0,
    put-IsMap key w is h.1,
  )
]

pub lookup-select-none :
    (p : Item → Bool) (key : String) (items : List Item)
    → lookup key items ≡ none
    → lookup key (select p items) ≡ none
unfolding lookup
lookup-select-none p key [] h = refl
lookup-select-none p key (i ∷ is) h = elim (Bool-cases (str_eq i.key key)) [
  | inl e ↦ cc (rw (lookup, e) at h)
  | inr e ↦ elim (Bool-cases (p i)) [
    | inl f ↦ rw (f, e) (lookup-select-none p key is (rw (lookup, e) at h))
    | inr f ↦ rw f (lookup-select-none p key is (rw (lookup, e) at h))
  ]
]

pub select-IsMap : (p : Item → Bool) (items : List Item) → IsMap items → IsMap (select p items)
select-IsMap p [] h = tt
select-IsMap p (i ∷ is) h = elim (Bool-cases (p i)) [
  | inl f ↦ rw f (lookup-select-none p i.key is h.0, select-IsMap p is h.1)
  | inr f ↦ rw f (select-IsMap p is h.1)
]

pub is_over_later :
    (window : ℤ) (now later : ℕ) (w : RateWindow)
    → now ≤ later
    → is_over window now w ≡ true
    → is_over window later w ≡ true
unfolding is_over sub_time
is_over_later (pos n) now later w h k = ground arith
is_over_later (negsuc n) now later w h k = ground arith

pub unless_over_gone :
    (window : ℤ) (now : ℕ) (w : RateWindow)
    → is_over window now w ≡ true
    → unless_over window now (some w) ≡ none
unfolding unless_over
unless_over_gone window now w h = rw h
