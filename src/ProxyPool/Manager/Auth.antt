-- ===== src/ProxyPool/Manager/Auth.antt =====
-- proxypool/proxy.go: SetAuthProxy and splitAuthProxy.
use public_golibs.Common.{
  ℕ, ◌≡◌, refl, false, none, List, [], ◌∷◌, ◌++◌, Text, is_empty, trim_space, inl, inr, Bool-cases,
  is_empty→eq, ap, ◌∙◌,
}
use public_golibs.Common.Split.{split_n, cut, Lacks, cut_append, split_n-cut, split_n_uncut}
use public_golibs.ProxyPool.Types.{ok, err, auth_unset}
use public_golibs.ProxyPool.Manager.{Proxy, get_auth_proxy}

abbrev nil_if_empty : Text → List Text
nil_if_empty [] = []
nil_if_empty (c ∷ s) = split_n b':' 4 (c ∷ s)

unfoldable pub split_auth_proxy : Text → List Text
split_auth_proxy s = nil_if_empty (trim_space s)

-- The fields, by the number of parts.
abbrev auth_fields : List Text → Proxy → Proxy
auth_fields [] p = record p {
  auth_host = [];
  auth_port = [];
  auth_username = [];
  auth_password = [];
}
auth_fields (h ∷ []) p = record p {
  auth_host = [];
  auth_port = [];
  auth_username = [];
  auth_password = [];
}
auth_fields (h ∷ q ∷ []) p = record p {
  auth_host = h;
  auth_port = q;
  auth_username = [];
  auth_password = [];
}
auth_fields (h ∷ q ∷ u ∷ []) p = record p {
  auth_host = h;
  auth_port = q;
  auth_username = u;
  auth_password = [];
}
auth_fields (h ∷ q ∷ u ∷ w ∷ rest) p = record p {
  auth_host = h;
  auth_port = q;
  auth_username = u;
  auth_password = w;
}

unfoldable pub set_auth_proxy : Text → Proxy → Proxy
unfolding split_auth_proxy
set_auth_proxy s p = auth_fields (split_auth_proxy s) p

split_four :
    (h q u w : Text)
    → Lacks b':' h
    → Lacks b':' q
    → Lacks b':' u
    → split_n b':' 4 (h ++ b':' ∷ (q ++ b':' ∷ (u ++ b':' ∷ w))) ≡ h ∷ q ∷ u ∷ w ∷ []
unfolding split_n
split_four h q u w lh lq lu =
    split_n-cut b':' 2 _ h (q ++ b':' ∷ (u ++ b':' ∷ w)) (cut_append b':' h _ lh)
    ∙ ap (◌∷◌ h) (
        split_n-cut b':' 1 _ q (u ++ b':' ∷ w) (cut_append b':' q _ lq)
        ∙ ap (◌∷◌ q) (split_n-cut b':' 0 _ u w (cut_append b':' u w lu)))

nil_if_empty_lem : (t : Text) → is_empty t ≡ false → nil_if_empty t ≡ split_n b':' 4 t
nil_if_empty_lem [] e = cc
nil_if_empty_lem (c ∷ s) e = refl

is_empty-cons : (h t : Text) (c : ℕ) → is_empty (h ++ c ∷ t) ≡ false
is_empty-cons [] t c = refl
is_empty-cons (x ∷ h) t c = refl

-- For a text that reads, less the space around it, host:port:user:password, with none of the four empty and
-- no colon in the first three, the address in the mode for passwords is that same text, colons in the
-- password included, and host:port is shown.
pub get_auth-set_auth :
    (s h q u w kind : Text) (p : Proxy)
    → trim_space s ≡ h ++ b':' ∷ (q ++ b':' ∷ (u ++ b':' ∷ w))
    → (is_empty h ≡ false) × (is_empty q ≡ false) × (is_empty u ≡ false) × (is_empty w ≡ false)
    → Lacks b':' h
    → Lacks b':' q
    → Lacks b':' u
    → get_auth_proxy kind (set_auth_proxy s p)
      ≡ ok (record { kind = kind; proxy = trim_space s; headers = []; ip = h ++ b':' ∷ q })
unfolding set_auth_proxy get_auth_proxy
get_auth-set_auth s h q u w kind p e (eh, eq, eu, ew) lh lq lu =
    rw
      (
        e,
        nil_if_empty_lem (h ++ b':' ∷ (q ++ b':' ∷ (u ++ b':' ∷ w))) (is_empty-cons h _ b':'),
        split_four h q u w lh lq lu,
      )
      (rw (eh, eq, eu, ew))

-- A text with no colon leaves the proxy unset, whatever it was before.
pub get_auth-no_colon :
    (s kind : Text) (p : Proxy)
    → cut b':' (trim_space s) ≡ none
    → get_auth_proxy kind (set_auth_proxy s p) ≡ err auth_unset
unfolding set_auth_proxy get_auth_proxy
get_auth-no_colon s kind p e = elim (Bool-cases (is_empty (trim_space s))) [
  | inl blank ↦ rw (is_empty→eq (trim_space s) blank)
  | inr filled ↦ rw (nil_if_empty_lem (trim_space s) filled, split_n_uncut b':' 3 (trim_space s) e)
]
