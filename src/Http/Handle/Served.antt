-- ===== src/Http/Handle/Served.antt =====
-- Which requests the server serves (lib/inc/handle_request.h).
use geoff.Prelude.{◌≡◌, refl, ◌⊎◌, inl, inr, true, false, ◌∷◌, subst}
use geoff.Http.Text.{Text, codes, contains}
use geoff.Http.Handle.Confined.{legal_target}
use geoff.Http.Handle.{Verb, get, head, other_verb, Request, can_handle, is_illegal}

-- A request that the server answers from a file: GET or HEAD, of an absolute target without "..".
abbrev pub IsServed : Request → Type 0
IsServed req =
    ((req.method ≡ get) ⊎ (req.method ≡ head))
    × ((rest : Text) × (req.target ≡ b'/' ∷ rest))
    × (contains (codes "..") req.target ≡ false)

-- The two tests of the code.
abbrev pub Passes : Request → Type 0
Passes req = (can_handle req.method ≡ true) × (is_illegal req.target ≡ false)

pub IsServed-Passes : (req : Request) → IsServed req → Passes req
IsServed-Passes req (method, (rest, e), clean) = (
  elim method [ inl g ↦ rw g refl | inr h ↦ rw h refl ],
  rw e (subst (λ t. contains (codes "..") t ≡ false) e clean),
)

can_handle-inv : (v : Verb) → can_handle v ≡ true → (v ≡ get) ⊎ (v ≡ head)
can_handle-inv get h = inl refl
can_handle-inv head h = inr refl
can_handle-inv (other_verb name) h = cc

pub Passes-IsServed : (req : Request) → Passes req → IsServed req
Passes-IsServed req (method, legal) =
    let (rest, e, clean) = legal_target req.target legal in
    (can_handle-inv req.method method, (rest, e), clean)
