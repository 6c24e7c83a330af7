-- ===== src/Dbus/Update.antt =====
-- About the settings that `update_connection` sends.
use text.Mathlib.TextEquality.{eq_iff}
use xmm7360_mvp.Prelude.{
  ℕ, ◌≡◌, ◌≢◌, refl, ◌∙◌, arith, String, false, none, some, List, text_eq, lookup_name,
}
use xmm7360_mvp.Result.{ok, from_option-ok, key, type}
use xmm7360_mvp.Result.Action.Laws.{lift-ok, change-ok}
use xmm7360_mvp.Dbus.Assoc.{get, insert, lookup-insert, lookup-remove}
use xmm7360_mvp.Dbus.{
  dotted, numbers, address_data, Section, Settings, NetworkManager, Dbus, path_of, dbus_ipv4_dns,
  new_ipv4, update_connection,
}

-- The keys of `ipv4` that the program writes, or deletes.
abbrev pub Kept : String → Type 0
Kept k = (k ≢ "addresses") × (k ≢ "address-data") × (k ≢ "gateway") × (k ≢ "dns")

-- The new section by its keys: the address with prefix 32, the gateway and the name servers are the
-- modem's, the old form of the addresses is gone, and any other key is as it was.
pub record IsNewIpv4 (ip_addr : ℕ) (dns : List ℕ) (old new : Section) : Type 0 where
  pub address : lookup_name "address-data" new ≡ some (address_data ip_addr 32)
  pub gateway : lookup_name "gateway" new ≡ some (dotted ip_addr)
  pub servers : lookup_name "dns" new ≡ some (numbers dns)
  pub addresses : lookup_name "addresses" new ≡ none
  pub others : (k : String) → Kept k → lookup_name k new ≡ lookup_name k old

-- Two names that differ.
differ : (a b : String) → b ≢ a → text_eq a b ≡ false
differ a b h = ground (arith, eq_iff a b)

lookup-new_ipv4-other :
    (ip_addr : ℕ) (dns : List ℕ) (old : Section) (k : String)
    → Kept k
    → lookup_name k (new_ipv4 ip_addr dns old) ≡ lookup_name k old
unfolding new_ipv4
lookup-new_ipv4-other ip_addr dns old k (h₁, h₂, h₃, h₄) = simp (
  lookup-insert,
  lookup-remove,
  differ "addresses" k h₁,
  differ "address-data" k h₂,
  differ "gateway" k h₃,
  differ "dns" k h₄,
)

new_ipv4-IsNewIpv4 :
    (ip_addr : ℕ) (dns : List ℕ) (old : Section)
    → IsNewIpv4 ip_addr dns old (new_ipv4 ip_addr dns old)
unfolding new_ipv4
new_ipv4-IsNewIpv4 ip_addr dns old = record {
  address = simp lookup-insert;
  gateway = simp lookup-insert;
  servers = simp lookup-insert;
  addresses = simp (lookup-insert, lookup-remove);
  others = lookup-new_ipv4-other ip_addr dns old;
}

-- Where `update_connection` returns, what it sent is the settings of the connection that was found,
-- with the section `ipv4` renewed from the address and the name servers, and no other section changed.
pub update_connection-IsNewIpv4 :
    (N : NetworkManager) (d : Dbus) (s u : N.State)
    → update_connection N d s ≡ (ok tt, u)
    → (path : String) × (config sent : Settings) × (old new : Section) × (d.connection_path
        ≡ some path)
      × (N.get_settings path s ≡ ok config)
      × (lookup_name "ipv4" config ≡ some old)
      × (lookup_name "ipv4" sent ≡ some new)
      × IsNewIpv4 d.ip_addr (dbus_ipv4_dns d) old new
      × ((k : String) → k ≢ "ipv4" → lookup_name k sent ≡ lookup_name k config)
      × (N.update path sent s ≡ ok u)
unfolding update_connection
update_connection-IsNewIpv4 N d s u h =
    let (path, e₁, h₁) = lift-ok (path_of d.connection_path) s _ tt u h in
    let (config, e₂, h₂) = lift-ok (N.get_settings path s) s _ tt u h₁ in
    let (old, e₃, h₃) = lift-ok (get "ipv4" config) s _ tt u h₂ in
    let new = new_ipv4 d.ip_addr (dbus_ipv4_dns d) old in
    let sent = insert "ipv4" new config in
    (
      path,
      config,
      sent,
      old,
      new,
      from_option-ok d.connection_path type e₁,
      e₂,
      from_option-ok (lookup_name "ipv4" config) key e₃,
      lookup-insert "ipv4" "ipv4" new config,
      new_ipv4-IsNewIpv4 d.ip_addr (dbus_ipv4_dns d) old,
      (λ k ne. lookup-insert k "ipv4" new config ∙ rw (differ "ipv4" k ne) refl),
      change-ok (N.update path sent) s u h₃,
    )
