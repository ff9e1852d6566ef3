-- ===== src/Sidecar/Server/Uploads.antt =====
-- When `uploadHandler` of internal/sidecar/http_server.go says that it has a file.
use pod_checkpoint_controlle.Prelude.{
  ℕ, ◌^◌, String, ◌==◌, ◌≡◌, refl, ◌∙◌, ap, ◌⊎◌, inl, inr, true, false, none, eqb, arith,
  Bool-cases, Option-cases,
}
use pod_checkpoint_controlle.Go.Errors.{ok, Result-cases}
use pod_checkpoint_controlle.Sidecar.Host.{HttpRequest, Upload, Host}
use pod_checkpoint_controlle.Sidecar.Transfer.{accepted}
use pod_checkpoint_controlle.Sidecar.Server.{
  Server, Response, upload_handler, receive_file, save_file,
}

eqb_differs : {n m : ℕ} → eqb n m ≡ false → n ≡ m → ⊥
eqb_differs h e = ground (arith, h, e)

size_of : {a b : ℕ} → eqb a b ≡ true → a ≡ b
size_of h = ground (arith, h)

module _ {S : Type 0} (H : Host S) (server : Server) (r : HttpRequest) (s : S) where
  -- The states after the form is parsed, the file found, the directory made, and the destination
  -- created.
  abbrev parsed : S
  parsed = (H.parse_multipart_form r (2 ^ 30) s).1

  abbrev found : S
  found = (H.form_file r "file" parsed).1

  abbrev made : S
  made = (H.mkdir_all server.checkpoint_dir found).1

  abbrev created : String → S
  created name = (H.create_file (H.join server.checkpoint_dir name) made).1

  -- A file was posted as the form's field "file", and every byte of it was copied to a new file of
  -- its name in the checkpoint directory.
  pub record IsReceived : Type 0 where
    pub posted : (r.method == "POST") ≡ true
    pub parses : (H.parse_multipart_form r (2 ^ 30) s).0 ≡ none
    pub upload : Upload
    pub finds : (H.form_file r "file" parsed).0 ≡ ok upload
    pub makes : (H.mkdir_all server.checkpoint_dir found).0 ≡ none
    pub dest : ℕ
    pub creates : (H.create_file (H.join server.checkpoint_dir upload.filename) made).0 ≡ ok dest
    pub copies : (H.copy_file dest upload.handle (created upload.filename)).0 ≡ ok upload.size

  -- A response with the status 201 if the file is received, and with one of the others, which the
  -- sender's `TransferCheckpoint` does not accept, if not.
  abbrev pub Tells : Response → Type 0
  Tells q =
      (IsReceived × (q.code ≡ 201) × (accepted q.code ≡ true))
      ⊎ ((IsReceived → ⊥)
          × ((q.code ≡ 400) ⊎ ((q.code ≡ 405) ⊎ (q.code ≡ 500)))
          × (accepted q.code ≡ false))

  -- What the handler answers after the file is open, and after the destination is.
  module _ (posted : (r.method == "POST") ≡ true)
      (parses : (H.parse_multipart_form r (2 ^ 30) s).0 ≡ none) (u : Upload)
      (finds : (H.form_file r "file" parsed).0 ≡ ok u)
      (makes : (H.mkdir_all server.checkpoint_dir found).0 ≡ none) where
    copied_Tells :
        (dest : ℕ)
        → (H.create_file (H.join server.checkpoint_dir u.filename) made).0 ≡ ok dest
        → Tells (upload_handler H server r s).0
    unfolding upload_handler receive_file save_file
    copied_Tells dest creates =
        elim (Result-cases (H.copy_file dest u.handle (created u.filename)).0) [
          | inl (e, failed) ↦
              rw
                (
                  posted, parses, finds, makes, creates, failed, upload_handler, receive_file,
                  save_file,
                )
                (inr (
                  (λ v. cc (v.finds, v.creates, v.copies, finds, creates, failed)),
                  inr (inr refl),
                  refl,
                ))
          | inr (n, copies) ↦ elim (Bool-cases (eqb n u.size)) [
            | inl same ↦
                rw
                  (
                    posted, parses, finds, makes, creates, copies, same, upload_handler,
                    receive_file, save_file,
                  )
                  (inl (
                    record {
                      posted = posted;
                      parses = parses;
                      upload = u;
                      finds = finds;
                      makes = makes;
                      dest = dest;
                      creates = creates;
                      copies = copies ∙ ap ok (size_of same);
                    },
                    refl,
                    refl,
                  ))
            | inr differs ↦
                rw
                  (
                    posted, parses, finds, makes, creates, copies, differs, upload_handler,
                    receive_file, save_file,
                  )
                  (inr (
                    (λ v.
                        eqb_differs differs
                          (cc (v.finds, v.creates, v.copies, finds, creates, copies))),
                    inr (inr refl),
                    refl,
                  ))
          ]
        ]

    opened_Tells : Tells (upload_handler H server r s).0
    unfolding upload_handler receive_file
    opened_Tells =
        elim (Result-cases (H.create_file (H.join server.checkpoint_dir u.filename) made).0) [
          | inl (e, failed) ↦
              rw (posted, parses, finds, makes, failed, upload_handler, receive_file)
                (inr ((λ v. cc (v.finds, v.creates, finds, failed)), inr (inr refl), refl))
          | inr (dest, creates) ↦ copied_Tells dest creates
        ]

  -- Whatever the form and the disk do: the handler answers with the status 201 if the request is a
  -- POST whose form has a file, and all of its bytes are copied to a new file of its name in the
  -- checkpoint directory; and otherwise with one of 400, 405 and 500. The sender of a checkpoint
  -- accepts the first answer and none of the others.
  pub upload_handler-Tells : Tells (upload_handler H server r s).0
  unfolding upload_handler receive_file
  upload_handler-Tells = elim (Bool-cases (r.method == "POST")) [
    | inr bad ↦ rw (bad, upload_handler) (inr ((λ v. cc (v.posted, bad)), inr (inl refl), refl))
    | inl posted ↦ elim (Option-cases (H.parse_multipart_form r (2 ^ 30) s).0) [
      | inr (e, failed) ↦
          rw (posted, failed, upload_handler) (inr ((λ v. cc (v.parses, failed)), inl refl, refl))
      | inl parses ↦ elim (Result-cases (H.form_file r "file" parsed).0) [
        | inl (e, failed) ↦
            rw (posted, parses, failed, upload_handler)
              (inr ((λ v. cc (v.finds, failed)), inl refl, refl))
        | inr (u, finds) ↦ elim (Option-cases (H.mkdir_all server.checkpoint_dir found).0) [
          | inr (e, failed) ↦
              rw (posted, parses, finds, failed, upload_handler, receive_file)
                (inr ((λ v. cc (v.makes, failed)), inr (inr refl), refl))
          | inl makes ↦ opened_Tells posted parses u finds makes
        ]
      ]
    ]
  ]
