-- ===== src/Sessions/Isolation.antt =====
-- Which messages share a session, by `session_key` of sessions.py.
use Prim.Native.Char.{Char, char, code}
use text.Mathlib.TextLemmas.{
  nil-append, cons-append, append-nil, append_cancel_left, head-eq_of_cons-eq,
}
use agent_keep.Base.{
  String, ◌≡◌, ◌↔◌, sym, ap, ◌∙◌, none, some, [], ◌∷◌, arith, concat, ok-injective,
}
use agent_keep.Base.Separated.{◌⊕◌, HasNo, separator_split}
use agent_keep.Messages.{InternalMessage}
use agent_keep.Sessions.Keys.{user_key, session_key}

abbrev colon : Char
colon = char 58 tt

-- No colon stands in the text, as in every platform's name.
abbrev HasNoColon : String → Type 0
HasNoColon = HasNo colon

colon_cons : (x : String) → ":" ⊕ x ≡ String.◌∷◌ colon x
colon_cons x = cons-append colon "" x ∙ ap (String.◌∷◌ colon) (nil-append x)

-- A prefix, a platform, a colon and an identity: the platform and the identity can be read off.
key_split :
    (kind p q x y : String)
    → HasNoColon p
    → HasNoColon q
    → concat (kind ∷ p ∷ ":" ∷ x ∷ []) ≡ concat (kind ∷ q ∷ ":" ∷ y ∷ [])
    → (p ≡ q) × (x ≡ y)
key_split kind p q x y hp hq e =
    let f = append_cancel_left kind _ _ e in
    separator_split colon p q x y hp hq
      (rw (append-nil x, append-nil y, colon_cons, colon_cons) at f)

-- The two kinds of key begin differently.
user≢channel : (a b : String) → "user:" ⊕ a ≡ "channel:" ⊕ b → ⊥
user≢channel a b e =
    let f =
      sym (cons-append (char b'u' tt) "ser:" a) ∙ e ∙ cons-append (char b'c' tt) "hannel:" b in
    let g = ap code (head-eq_of_cons-eq f) in ground arith

-- Under `per-user`, two people who both have a platform id share a session exactly if they are the
-- same id on the same platform, whatever channel they write in.
session_key_per_user :
    (m n : InternalMessage) (i j : String)
    → m.sender.platform_id ≡ some i
    → n.sender.platform_id ≡ some j
    → HasNoColon m.channel.platform
    → HasNoColon n.channel.platform
    → (session_key (some "per-user") m ≡ session_key (some "per-user") n)
      ↔ ((m.channel.platform ≡ n.channel.platform) × (i ≡ j))
unfolding session_key
session_key_per_user m n i j p q hm hn =
    rw (p, q, user_key) (λ e. key_split "user:" _ _ i j hm hn (ok-injective e), λ (e, f). cc (e, f))

-- Under `per-channel`, two messages share a session exactly if they come from the same conversation
-- of the same platform, whoever sent them.
session_key_per_channel :
    (m n : InternalMessage)
    → HasNoColon m.channel.platform
    → HasNoColon n.channel.platform
    → (session_key (some "per-channel") m ≡ session_key (some "per-channel") n) ↔ (
        (m.channel.platform ≡ n.channel.platform)
        × (m.channel.conversation_id ≡ n.channel.conversation_id))
unfolding session_key
session_key_per_channel m n hm hn =
    (λ e. key_split "channel:" _ _ _ _ hm hn (ok-injective e), λ (e, f). cc (e, f))

-- Under `per-user`, a message without a platform id, as a trigger's, never lands in a person's
-- session.
session_key_trigger_apart :
    (m n : InternalMessage) (i : String)
    → m.sender.platform_id ≡ some i
    → n.sender.platform_id ≡ none
    → session_key (some "per-user") m ≡ session_key (some "per-user") n
    → ⊥
unfolding session_key
session_key_trigger_apart m n i p q e =
    let f = rw (p, q, user_key) at e in user≢channel _ _ (ok-injective f)
