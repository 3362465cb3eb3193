-- ===== src/Exchange/Honest.antt =====
-- An exchange between two sides that know each other.
use mclog.Base.{
  ◌+◌, ◌≡◌, ◌≤◌, ◌∙◌, refl, ap, sym, true, false, [], ◌∷◌, ◌++◌, some, ◌==◌, text_eq, text_eq_self,
  is_empty, length, take, arith, append-nil, take-append, drop-append, length-append,
}
use mclog.Packet.{Bytes, Aead}
use mclog.Packet.Secrecy
use mclog.Packet.Secrecy.{decrypt_opens, send_encrypted_lem, length-contents}
use mclog.Exchange.{Credence, Forms, KeyDir, Outside}
use mclog.Exchange.Client.{
  ClientState, KeyRequestClientState, client_initial, client_kx_key_sent, client_id_sent,
  on_initial, client_kx_sent, is_valid_user, client_step,
}
use mclog.Exchange.Requester.{
  State, KeyRequesterState, kx_key_sent, id_sent, success, valid_user, on_kx_key_sent, on_id_sent,
  requester_step, get_key,
}
use mclog.Exchange.Signing.{AreForms, Signs, Holds, send_id_and_sig_lem}

-- The side that is asked, with its key pair.
abbrev pub asked : Bytes → ClientState → Bytes → Bytes → KeyRequestClientState
asked pair state theirs shared = record {
  state = state;
  key_pair = pair;
  their_kx = theirs;
  shared_key = shared;
}

-- The side that asks, with its key pair.
abbrev pub asking : Bytes → State → Bytes → Bytes → Bytes → KeyRequesterState
asking pair state theirs shared mcast_key = record {
  current_state = state;
  kx_key_pair = pair;
  their_kx = theirs;
  shared_key = shared;
  mcast_key = mcast_key;
}

module _ (c : Aead) (sound : Secrecy.IsSound c) (cr : Credence) (fm : Forms)
    (forms : AreForms fm) where
  module _ (dir other : KeyDir) (pair : Bytes) where
    -- The side that is asked answers the asking side's public half with its own.
    client_hears :
        (mcast_key : Bytes) (out : Outside) (theirs before key : Bytes)
        → length theirs ≡ 32
        → out.sends ≡ true
        → client_step c cr fm dir mcast_key out
            (fm.short.write theirs)
            (asked pair client_initial before key)
          ≡ some (
            true,
            asked pair client_kx_key_sent theirs (cr.kx_shared pair theirs),
            fm.short.write (cr.kx_public pair) ∷ [],
          )
    unfolding client_step on_initial
    client_hears mcast_key out theirs before key size sends =
        let read : fm.short.read (fm.short.write theirs) ≡ some (theirs, []) =
          ap fm.short.read (sym (append-nil (fm.short.write theirs)))
          ∙ forms.short.reads_back theirs [] (omega arith) in
        let right : (length theirs == 32) ≡ true = ground arith in
        ground (arith, read, right, sends)

    -- It answers a signature of its public half with its own of the two keys.
    client_believes :
        (mcast_key : Bytes) (out : Outside) (d id signed_msg theirs shared : Bytes)
        → Holds c fm shared d id signed_msg
        → is_empty (dir.known id) ≡ false
        → cr.open_signed signed_msg (dir.known id) ≡ some (cr.kx_public pair)
        → (s : Signs c cr fm dir other out (theirs ++ mcast_key))
        → (d' : Bytes) × (client_step c cr fm dir mcast_key out d
              (asked pair client_kx_key_sent theirs shared)
            ≡ some (true, asked pair client_id_sent theirs shared, d' ∷ []))
          × Holds c fm shared d' s.id s.signed_msg
    unfolding client_step client_kx_sent is_valid_user
    client_believes mcast_key out d id signed_msg theirs shared holds known opens s =
        let (pkt, made, rc, read, long) = holds in
        let (d', sent, holds') =
          send_id_and_sig_lem c sound cr fm forms dir other out shared (theirs ++ mcast_key) s in
        let same = text_eq_self (cr.kx_public pair) in
        (d', ground (arith, long, made, rc, read, known, opens, same, sent), holds')

    requester_hears :
        (out : Outside) (theirs shared before key old : Bytes)
        → cr.kx_shared pair theirs ≡ shared
        → length theirs ≤ 255
        → (s : Signs c cr fm dir other out theirs)
        → (d : Bytes) × (requester_step c cr fm dir out
              (fm.short.write theirs)
              (asking pair kx_key_sent before key old)
            ≡ some (true, asking pair id_sent theirs shared old, d ∷ []))
          × Holds c fm shared d s.id s.signed_msg
    unfolding requester_step on_kx_key_sent
    requester_hears out theirs shared before key old agree size s =
        let read : fm.short.read (fm.short.write theirs) ≡ some (theirs, []) =
          ap fm.short.read (sym (append-nil (fm.short.write theirs)))
          ∙ forms.short.reads_back theirs [] size in
        let (d, sent, holds) =
          send_id_and_sig_lem c sound cr fm forms dir other out shared theirs s in
        (d, ground (arith, agree, read, sent), holds)

    requester_believes :
        (out : Outside) (d id signed_msg key theirs shared old : Bytes)
        → Holds c fm shared d id signed_msg
        → is_empty (dir.known id) ≡ false
        → cr.open_signed signed_msg (dir.known id) ≡ some (cr.kx_public pair ++ key)
        → length key ≡ cr.session_key_bytes
        → requester_step c cr fm dir out d (asking pair id_sent theirs shared old)
          ≡ some (true, asking pair success theirs shared key, [])
    unfolding requester_step on_id_sent valid_user
    requester_believes out d id signed_msg key theirs shared old holds known opens size =
        let (pkt, made, rc, read, long) = holds in
        let mine = cr.kx_public pair in
        let whole : (length (mine ++ key) == length mine + cr.session_key_bytes) ≡ true =
          ground (arith, length-append mine key, size) in
        let front : text_eq (take (length mine) (mine ++ key)) mine ≡ true =
          ap (λ t. text_eq t mine) (take-append (length mine) mine key refl) ∙ text_eq_self mine in
        let back = drop-append (length mine) mine key refl in
        ground (arith, made, rc, read, known, opens, whole, front, back)

  module _ (dir_asked dir_asking : KeyDir) (pair_asked pair_asking mcast_key : Bytes) where
    -- Two sides that agree on the shared key of their halves, and each of which can sign what the
    -- other side opens, end with the key at the side that asks: the side that is asked answers the
    -- asking side's public half with its own; the asking side answers that with a datagram to
    -- which the side that is asked answers with another; and the loop of the asking side over the
    -- two datagrams it was sent returns the key of the side that is asked.
    pub get_key-client_step :
        (out1 out2 out3 out4 : Outside) (theirs1 key1 theirs2 key2 old : Bytes)
        → let mine = cr.kx_public pair_asked in
          let theirs = cr.kx_public pair_asking in
          let shared = cr.kx_shared pair_asked theirs in
          cr.kx_shared pair_asking mine ≡ shared
          → length theirs ≡ 32
          → length mine ≤ 255
          → length mcast_key ≡ cr.session_key_bytes
          → out1.sends ≡ true
          → (asks : Signs c cr fm dir_asking dir_asked out2 mine)
          → (answers : Signs c cr fm dir_asked dir_asking out3 (theirs ++ mcast_key))
          → (d2 d3 : Bytes) × (client_step c cr fm dir_asked mcast_key out1
                (fm.short.write theirs)
                (asked pair_asked client_initial theirs1 key1)
              ≡ some (
                true,
                asked pair_asked client_kx_key_sent theirs shared,
                fm.short.write mine ∷ [],
              ))
            × (requester_step c cr fm dir_asking out2
                  (fm.short.write mine)
                  (asking pair_asking kx_key_sent theirs2 key2 old)
                ≡ some (true, asking pair_asking id_sent mine shared old, d2 ∷ []))
            × (client_step c cr fm dir_asked mcast_key out3 d2
                  (asked pair_asked client_kx_key_sent theirs shared)
                ≡ some (true, asked pair_asked client_id_sent theirs shared, d3 ∷ []))
            × (get_key c cr fm dir_asking
                  ((out2, fm.short.write mine) ∷ (out4, d3) ∷ [])
                  (asking pair_asking kx_key_sent theirs2 key2 old)
                ≡ some (some mcast_key))
    unfolding get_key
    get_key-client_step out1 out2 out3 out4 theirs1 key1 theirs2 key2 old agree size_asking
          size_asked size_key sends asks answers =
        let mine = cr.kx_public pair_asked in
        let theirs = cr.kx_public pair_asking in
        let shared = cr.kx_shared pair_asked theirs in
        let hears =
          client_hears dir_asked dir_asking pair_asked mcast_key out1 theirs theirs1 key1
            size_asking sends in
        let (d2, sent2, holds2) =
          requester_hears dir_asking dir_asked pair_asking out2 mine shared theirs2 key2 old agree
            size_asked asks in
        let (d3, sent3, holds3) =
          client_believes dir_asked dir_asking pair_asked mcast_key out3 d2 asks.id asks.signed_msg
            theirs shared holds2 asks.known asks.opens answers in
        let learns =
          requester_believes dir_asking dir_asked pair_asking out4 d3 answers.id answers.signed_msg
            mcast_key mine shared old holds3 answers.known answers.opens size_key in
        (d2, d3, hears, sent2, sent3, ground (arith, sent2, learns))
