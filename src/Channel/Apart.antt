-- ===== src/Channel/Apart.antt =====
-- Messages about different users and rooms: any of them may come first.
use im_service_modify.Prelude.{
  append_assoc, ◌≡◌, refl, sym, ap, ◌∙◌, inl, inr, Bool, Option, none, List, [], ◌∷◌, ◌++◌,
}
use im_service_modify.Channel.Calls.{AreHandled, IsHandled, IsApart, IsSilent}
use im_service_modify.Message.Body.{Message}
use im_service_modify.RouteServer.Known.{change_of, after-append, changed, Key, after}

IsSilent-without :
    (xs ys : List Message) (m : Message) (key : Key)
    → IsSilent key (xs ++ m ∷ ys)
    → (change_of m key ≡ none) × IsSilent key (xs ++ ys)
unfolding IsSilent
IsSilent-without [] ys m key h = h
IsSilent-without (x ∷ xs) ys m key (e, h) =
    let (p, q) = IsSilent-without xs ys m key h in (p, (e, q))

pub IsApart-without :
    (xs ys : List Message) (m : Message) → IsApart (xs ++ m ∷ ys) → IsApart (xs ++ ys)
unfolding IsApart
IsApart-without [] ys m h = h.1
IsApart-without (x ∷ xs) ys m (f, h) = (
  λ key. elim (f key) [ inl e ↦ inl e | inr g ↦ inr (IsSilent-without xs ys m key g).1 ],
  IsApart-without xs ys m h,
)

-- Where no two messages are about the same user or room, any of them may come first.
after-first :
    (xs ys : List Message) (m : Message) (key : Key) (old : Option Bool)
    → IsApart (xs ++ m ∷ ys)
    → after (m ∷ (xs ++ ys)) key old ≡ after (xs ++ m ∷ ys) key old
unfolding after IsApart
after-first [] ys m key old h = refl
after-first (x ∷ xs) ys m key old (f, h) = elim (f key) [
  | inl e ↦
      ap (λ c. after (xs ++ ys) key (changed c (changed (change_of m key) old))) e
      ∙ after-first xs ys m key old h
      ∙ ap (λ c. after (xs ++ m ∷ ys) key (changed c old)) (sym e)
  | inr g ↦
      ap (λ c. after (xs ++ ys) key (changed (change_of x key) (changed c old)))
        (IsSilent-without xs ys m key g).0
      ∙ ap (λ c. after (xs ++ ys) key (changed c (changed (change_of x key) old)))
          (sym (IsSilent-without xs ys m key g).0)
      ∙ after-first xs ys m key (changed (change_of x key) old) h
]

pub put-after :
    (wt xs ys : List Message) (m : Message) (key : Key) (old : Option Bool)
    → IsApart (xs ++ m ∷ ys)
    → after ((wt ++ m ∷ []) ++ (xs ++ ys)) key old ≡ after (wt ++ (xs ++ m ∷ ys)) key old
put-after wt xs ys m key old h =
    ap (λ v. after v key old) (append_assoc wt (m ∷ []) (xs ++ ys))
    ∙ after-append wt (m ∷ (xs ++ ys)) key old
    ∙ after-first xs ys m key (after wt key old) h
    ∙ sym (after-append wt (xs ++ m ∷ ys) key old)

pub AreHandled-without :
    (xs ys : List Message) (m : Message)
    → AreHandled (xs ++ m ∷ ys)
    → IsHandled m × AreHandled (xs ++ ys)
unfolding AreHandled
AreHandled-without [] ys m h = h
AreHandled-without (x ∷ xs) ys m (e, h) = let (p, q) = AreHandled-without xs ys m h in (p, (e, q))
