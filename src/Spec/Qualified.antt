-- ===== src/Spec/Qualified.antt =====
-- The names under which tools are granted, `<server>.<tool>`, and the executor's registry of them.
use Prim.Native.Char.{Char, char, code}
use text.Mathlib.TextLemmas.{nil-append, cons-append, append-nil}
use agent_keep.Base.{
  ℕ, String, Bool, true, false, ◌&&◌, ◌||◌, Option, List, [], ◌∷◌, ◌++◌, ◌≡◌, inl, inr, refl, sym,
  ap, ◌∙◌, arith, map, ok, leb, ◌==◌, str_eq, eq_iff, codes, concat, All, In, In-append, In-map,
  Unique, Bool-cases, if◌then◌else◌,
}
use mathlib.Core.Path.{subst}
use mathlib.Core.List
use agent_keep.Base.Separated.{◌⊕◌, HasNo, separator_split}
use agent_keep.Base.Dict
use agent_keep.Base.Dict.{Dict}
use agent_keep.Executor.Types.{GrantedTool}
use agent_keep.Executor.Calls.{register}
use agent_keep.Spec.Check.{Accepts}
use agent_keep.Spec.Tools.{McpServer, ToolGrant}
use agent_keep.Spec.Sections.{SpecSections}
use agent_keep.Spec.Validate.{UrlParts}
use agent_keep.Spec.Accepted.{qualified_name, declared, validate}
use agent_keep.Spec.Consistent.{IsServer, server_names, validate-IsConsistent}

abbrev pub is_lower_alnum : ℕ → Bool
is_lower_alnum c = leb b'a' c && leb c b'z' || leb b'0' c && leb c b'9'

-- The pattern `KEBAB`, from whether a word has begun.
unfoldable pub matches_kebab : Bool → List ℕ → Bool
matches_kebab begun [] = begun
matches_kebab begun (c ∷ s) =
    let more = matches_kebab true s in
    let next = matches_kebab false s in
    if is_lower_alnum c then more else begun && (c == b'-' && next)

abbrev pub is_kebab : String → Bool
is_kebab s = matches_kebab false (codes s)

abbrev dot : Char
dot = char b'.' tt

kebab-HasNo : (begun : Bool) (s : String) → matches_kebab begun (codes s) ≡ true → HasNo dot s
unfolding matches_kebab codes
kebab-HasNo begun String.[] h = tt
kebab-HasNo begun (String.◌∷◌ c s) h = (
  λ e. ground arith,
  elim (Bool-cases (is_lower_alnum (code c))) [
    | inl y ↦ kebab-HasNo true s (rw y at h)
    | inr n ↦ kebab-HasNo false s (ground arith)
  ],
)

qualified_split :
    (p q x y : String)
    → HasNo dot p
    → HasNo dot q
    → concat (p ∷ "." ∷ x ∷ []) ≡ concat (q ∷ "." ∷ y ∷ [])
    → (p ≡ q) × (x ≡ y)
qualified_split p q x y hp hq e =
    separator_split dot p q x y hp hq (rw (append-nil x, append-nil y, dot_cons, dot_cons) at e)
  where
    dot_cons : (z : String) → "." ⊕ z ≡ String.◌∷◌ dot z
    dot_cons z = cons-append dot "" z ∙ ap (String.◌∷◌ dot) (nil-append z)

-- The names of one server's grants, and of another's, under their servers' names.
qualified-Unique :
    (s : McpServer) (gs : List ToolGrant)
    → HasNo dot s.name
    → Unique (map (λ (g : ToolGrant). g.name) gs)
    → Unique (map (qualified_name s) gs)
qualified-Unique s [] h u = tt
qualified-Unique s (g ∷ gs) h u = (
  λ i.
      let (k, j, e) = (In-map (qualified_name s) (qualified_name s g) gs).0 i in
      u.0 (
        (In-map (λ (r : ToolGrant). r.name) g.name gs).1
          (k, j, (qualified_split s.name s.name k.name g.name h h e).1)),
  qualified-Unique s gs h u.1,
)

Unique-append :
    (xs ys : List String)
    → Unique xs
    → Unique ys
    → ((n : String) → In n xs → ¬ In n ys)
    → Unique (xs ++ ys)
Unique-append [] ys u v d = v
Unique-append (x ∷ xs) ys u v d = (
  λ i. elim ((In-append x xs ys).0 i) [ inl p ↦ u.0 p | inr q ↦ d x (inl refl) q ],
  Unique-append xs ys u.1 v (λ n i. d n (inr i)),
)

abbrev pub IsKebab : McpServer → Type 0
IsKebab s = is_kebab s.name ≡ true

server_of_declared :
    (p : String) (x : String) (ss : List McpServer)
    → HasNo dot p
    → All IsKebab ss
    → In (concat (p ∷ "." ∷ x ∷ [])) (declared ss)
    → In p (server_names ss)
unfolding declared
server_of_declared p x [] h k i = absurd i
server_of_declared p x (s ∷ ss) h k i =
    elim ((In-append _ (map (qualified_name s) s.allow) (declared ss)).0 i) [
      | inl here ↦
          let (g, j, e) = (In-map (qualified_name s) _ s.allow).0 here in
          inl (qualified_split s.name p g.name x (kebab-HasNo false s.name k.0) h e).0
      | inr there ↦ inr (server_of_declared p x ss h k.1 there)
    ]

declared-Unique :
    (urlsplit : String → Option UrlParts) (ss : List McpServer)
    → All IsKebab ss
    → All (IsServer urlsplit) ss
    → Unique (server_names ss)
    → Unique (declared ss)
unfolding declared
declared-Unique urlsplit [] k v u = tt
declared-Unique urlsplit (s ∷ ss) k v u =
    let h = kebab-HasNo false s.name k.0 in
    Unique-append (map (qualified_name s) s.allow) (declared ss)
      (qualified-Unique s s.allow h v.0.1) (declared-Unique urlsplit ss k.1 v.1 u.1)
      (λ n i j.
        let (g, m, e) = (In-map (qualified_name s) n s.allow).0 i in
        u.0 (server_of_declared s.name g.name ss h k.1 (subst (λ r. In r (declared ss)) (sym e) j)))

module _ {V W : Type 0} where
  put_new :
      (d : Dict (GrantedTool V W)) (k : String) (t : GrantedTool V W)
      → Dict.has d k ≡ false
      → Dict.put d k t ≡ d ++ (k, t) ∷ []
  unfolding Dict.get Dict.put
  put_new [] k t h = refl
  put_new ((j, r) ∷ d) k t h = ground (arith, put_new d k t)

  register_total :
      (registry : Dict (GrantedTool V W)) (tools : List (GrantedTool V W))
      → Unique (map (λ (t : GrantedTool V W). t.name) tools)
      → ((n : String)
          → In n (map (λ (t : GrantedTool V W). t.name) tools)
          → Dict.has registry n ≡ false)
      → register registry tools ≡ ok (registry ++ map (λ (t : GrantedTool V W). (t.name, t)) tools)
  unfolding register
  register_total registry [] u d = ap ok (sym (List.append-nil registry))
  register_total registry (t ∷ ts) u d =
      rw
        (
          d t.name (inl refl),
          register_total (Dict.put registry t.name t) ts u.1 fresh,
          put_new registry t.name t (d t.name (inl refl)),
          List.append_assoc registry,
        )
        refl
    where
      fresh :
          (n : String)
          → In n (map (λ (t : GrantedTool V W). t.name) ts)
          → Dict.has (Dict.put registry t.name t) n ≡ false
      fresh n i = elim (Bool-cases (str_eq t.name n)) [
        | inl y ↦ absurd (
            u.0 (
              subst (λ m. In m (map (λ (r : GrantedTool V W). r.name) ts))
                (sym ((eq_iff t.name n).0 y)) i))
        | inr f ↦ rw (Dict.has, Dict.get-put registry t.name n t, f) (d n (inr i))
      ]

  -- For a spec that `validate` accepts, whose server names match the schema's pattern: tools that carry
  -- the qualified names of its grants, in order, are registered without an error, each under its name.
  pub register-declared :
      {F : Type 0} (urlsplit : String → Option UrlParts) (s : SpecSections F)
      (tools : List (GrantedTool V W))
      → Accepts (validate urlsplit s)
      → All IsKebab s.tools
      → map (λ (t : GrantedTool V W). t.name) tools ≡ declared s.tools
      → register [] tools ≡ ok (map (λ (t : GrantedTool V W). (t.name, t)) tools)
  unfolding Dict.get
  register-declared urlsplit s tools h k e =
      let c = (validate-IsConsistent urlsplit s).0 h in
      register_total [] tools
        (subst Unique (sym e) (declared-Unique urlsplit s.tools k c.servers c.names)) (λ n i. refl)
