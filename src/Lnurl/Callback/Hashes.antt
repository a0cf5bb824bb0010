-- ===== src/Lnurl/Callback/Hashes.antt =====
-- The invoice of a callback commits to the metadata that the other endpoint serves.
use spark_ln_address.Prelude.{◌≡◌, is_empty, Text, ok, throw_if-ok, >>=-ok}
use spark_ln_address.Database.{Storage, Db}
use mathlib.Core.Path.{subst}
use spark_ln_address.Lnurl.{
  LnurlPayMetadata, no_public_key, description_hash_for, lnurl_pay_description_hash,
  find_active_lightning_name_with_user, get_lnurl_pay_metadata, callback_amount,
}
use spark_ln_address.Lnurl.Callback.{
  Outside, Draws, Moments, invoice, answer_with_hash, handle_lnurl_callback,
}
use spark_ln_address.Lnurl.Callback.Served.{found_with_user, description_hash_for-metadata}
use spark_ln_address.Lnurl.Callback.Origin.{Origin, answer_with_hash-Origin}

module _ (S : Storage) (outside : Outside) where
  -- Where the LNURL callback answers a request with an invoice, the metadata endpoint answers the
  -- same name with metadata, and the invoice comes of one of three: a Flashnet quote, whose
  -- invoice carries the hash of that metadata as its description hash, in lower case; a quote that
  -- was recorded before under the drawn key; or the Spark wallet, which was given that hash. A new
  -- invoice is stored in the state that is answered with: the quote's under the drawn key, the
  -- wallet's under the key of its own.
  pub callback_commits :
      (draws : Draws) (raw amount pr : Text) (at : Moments S) (db' : Db S)
      → handle_lnurl_callback S outside draws raw amount at ≡ ok (invoice pr, db')
      → (served : LnurlPayMetadata) × (get_lnurl_pay_metadata S outside.config raw at.lookup
          ≡ ok served)
        × Origin S outside at draws.idempotency_key
            (lnurl_pay_description_hash outside.crypto served.metadata)
            pr
            db'
  unfolding handle_lnurl_callback
  callback_commits draws raw amount pr at db' h =
      let (msat, a, h1) = >>=-ok (callback_amount amount) _ h in
      let (found, b, h2) = >>=-ok (find_active_lightning_name_with_user S raw at.lookup) _ h1 in
      let (keyed, h3) = throw_if-ok (is_empty found.0.linking_pub_key_hex) no_public_key _ _ h2 in
      let settled = description_hash_for outside.crypto outside.config found.0.username in
      let answered : answer_with_hash S outside draws found msat at settled ≡ (invoice pr, db') =
        cc h3 in
      let (hash, known, origin) =
        answer_with_hash-Origin S outside draws found msat at settled pr db' answered in
      let (served, shown, same) =
        description_hash_for-metadata S outside.crypto outside.config raw at.lookup found.0 hash
          (found_with_user S outside.crypto outside.config raw at.lookup found b) known in
      (served, shown, subst (λ t. Origin S outside at draws.idempotency_key t pr db') same origin)
