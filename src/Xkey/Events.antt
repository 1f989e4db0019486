-- ===== src/Xkey/Events.antt =====
-- The callback of src/vmod_xkey.c for objects that enter and leave the cache, and the event function
-- of the module.
use operations_debs_varnish.Base.{
  starts_with_nocase, ℕ, ◌+◌, ◌-◌, Bool, false, ◌&&◌, ◌||◌, List, [], ◌∷◌, Option, none, some, ltb,
  ◌==◌, if◌then◌else◌, ◌>>=◌, Bytes, codes, Cut, cut, missing, found,
}
use operations_debs_varnish.Tree.{Tree}
use operations_debs_varnish.Xkey.Index.{Oc, Xkey, xkey_insert, xkey_cb_remove, xkey_cleanup}
use operations_debs_varnish.Xkey.Tokens.{tokens}

abbrev pub hdr_xkey : Bytes
hdr_xkey = codes "xkey:"

abbrev pub hdr_h2 : Bytes
hdr_h2 = codes "X-HashTwo:"

abbrev pub names_keys : Bytes → Bool
names_keys header = starts_with_nocase header hdr_xkey || starts_with_nocase header hdr_h2

abbrev pub rest_of : Cut → Option Bytes
rest_of (missing _) = none
rest_of (found _ rest) = some rest

-- The text behind the first colon; there is one in a header that passes the test.
unfoldable pub after_colon : Bytes → Option Bytes
after_colon s = rest_of (cut b':' s)

-- EXP_INSERT and EXP_INJECT, or OEV_INSERT; EXP_REMOVE, or OEV_EXPIRE; any other
pub data CacheEvent : Type 0 where
  inserted removed other_event : CacheEvent

-- enum vcl_event_e
pub data VclEvent : Type 0 where
  load discard other_vcl_event : VclEvent

module _ (H : Tree Bytes (List Oc)) (O : Tree ℕ (List Oc)) (sha256 : Bytes → Bytes) where
  unfoldable pub insert_words : ℕ → List Bytes → Xkey H O → Option (Xkey H O)
  insert_words objcore [] x = some x
  insert_words objcore (w ∷ ws) x = do
    x' ← xkey_insert H O objcore (sha256 w) x
    insert_words objcore ws x'

  -- The body of the loop for a header that passes the test
  unfoldable pub insert_header : Bytes → ℕ → Xkey H O → Option (Xkey H O)
  unfolding insert_words after_colon
  insert_header sp objcore x = do
    value ← after_colon sp
    ws ← tokens value
    insert_words objcore ws x

  -- xkey_cb_insert(), over the headers that HTTP_FOREACH_PACK gives for the object
  unfoldable pub xkey_cb_insert : List Bytes → ℕ → Xkey H O → Option (Xkey H O)
  unfolding insert_header
  xkey_cb_insert [] objcore x = some x
  xkey_cb_insert (sp ∷ headers) objcore x = do
    x' ← (if names_keys sp then insert_header sp objcore x else some x)
    xkey_cb_insert headers objcore x'

  unfoldable pub xkey_cb : CacheEvent → List Bytes → ℕ → Xkey H O → Option (Xkey H O)
  xkey_cb inserted headers objcore x = xkey_cb_insert headers objcore x
  xkey_cb removed headers objcore x = some (xkey_cb_remove H O objcore x)
  xkey_cb other_event headers objcore x = none

  -- The module: its index, n_init, and whether xkey_cb_handle is set.
  pub record Vmod : Type 0 where
    pub index : Xkey H O
    pub n_init : ℕ
    pub registered : Bool

  -- The case VCL_EVENT_DISCARD behind its assertions, with n_init counted down.
  unfoldable pub discard_last : Vmod → Option Vmod
  discard_last v =
      if v.n_init == 0
      then xkey_cleanup H O v.index >>= (λ x. some (record v { index = x; registered = false }))
      else some v

  -- vmod_event(). `handle` says that EXP_Register_Callback or ObjSubscribeEvents gives a handle.
  unfoldable pub vmod_event : Bool → VclEvent → Vmod → Option Vmod
  unfolding discard_last
  vmod_event handle load v =
      let registered = if v.n_init == 0 then handle else v.registered in
      if registered
      then some (record v { registered = registered; n_init = v.n_init + 1 })
      else none
  vmod_event handle discard v =
      if ltb 0 v.n_init && v.registered
      then discard_last (record v { n_init = v.n_init - 1 })
      else none
  vmod_event handle other_vcl_event v = some v
