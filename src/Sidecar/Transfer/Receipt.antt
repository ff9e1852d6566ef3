-- ===== src/Sidecar/Transfer/Receipt.antt =====
-- What it takes for `TransferCheckpoint` of internal/sidecar/checkpoint_manager.go to return nil.
use pod_checkpoint_controlle.Prelude.{
  ◌⊎◌, ◌≢◌, ap, subst, eq_iff, ◌∙◌, true, ℕ, zero, suc, ◌+◌, String, ◌<>◌, ◌==◌, ◌≡◌, refl, inl,
  inr, arith, false, Option, none, some, List, ◌^◌, eqb, Bool-cases, Option-cases,
}
use pod_checkpoint_controlle.Go.Errors.{GoError, Result, ok, err, seconds, wrap, Result-cases}
use pod_checkpoint_controlle.Go.Flow.{answer}
use pod_checkpoint_controlle.Api.Meta.{Pod}
use pod_checkpoint_controlle.Kube.Client.{Kube}
use pod_checkpoint_controlle.Sidecar.Host.{HttpRequest, HttpResponse, Host}
use pod_checkpoint_controlle.Sidecar.Transfer.{
  Sending, fail_with, fill_form, form_request, attempt_request, retry_request, take_reply,
  target_ip, upload_client, accepted, upload, send_form, send_to, send_file, transfer_checkpoint,
}
use pod_checkpoint_controlle.Sidecar.Transfer.Target.{FirstSidecar, target_ip-FirstSidecar}
use pod_checkpoint_controlle.Sidecar.Transfer.Outcomes.{
  Outcome, some_is_not_none, then_nil, then_Outcome,
}

module _ {S : Type 0} (H : Host S) (file : ℕ) (src : String) where
  -- A form of a writer that is made in a state: the file goes into the field "file", under the last
  -- part of its path, and the form is closed.
  abbrev writer : S → ℕ
  writer start = (H.new_writer start).0

  abbrev opened : S → Option GoError × S
  opened start = let (w, u) = H.new_writer start in H.create_form_file w "file" (H.base src) u

  abbrev copied : S → Option GoError × S
  copied start = H.copy_into_form (writer start) file (opened start).1

  abbrev closed : S → Option GoError × S
  closed start = H.close_writer (writer start) (copied start).1

  -- It is filled from a state in which the file is at its start: the given one, or one after the file is
  -- rewound.
  pub record IsFilled (unread start : S) : Type 0 where
    pub at_start :
        (start ≡ unread)
        ⊎ ((u : S) × ((H.seek_start file u).0 ≡ none) × (start ≡ (H.seek_start file u).1))
    pub opens : (opened start).0 ≡ none
    pub copies : (copied start).0 ≡ none

  -- A POST of such a form, once it is closed; the port may be asked for in between.
  pub record IsPosted (unread : S) (url : String) (req : HttpRequest) : Type 0 where
    pub start : S
    pub filled : IsFilled unread start
    pub before : S
    pub closes : (before ≡ (closed start).1) ⊎ (before ≡ (H.getenv "HTTP_PORT" (closed start).1).1)
    pub built : H.new_request "POST" url (some (H.form_of (writer start) before).0) ≡ ok req

  -- It was answered with the status 200 or 201.
  pub record IsAccepted (unread : S) (url : String) : Type 0 where
    pub request : HttpRequest
    pub posted : IsPosted unread url request
    pub before : S
    pub response : HttpResponse
    pub replies : (H.send upload_client (some request) before).0 ≡ ok response
    pub accepts : (response.status_code ≡ 200) ⊎ (response.status_code ≡ 201)

  -- A writer that holds the file, and the state that it is left in.
  abbrev Holds : S → ℕ → Type 0
  Holds s w =
      (w ≡ writer s)
      × ((opened s).0 ≡ none)
      × ((copied s).0 ≡ none)
      × ((fill_form H file src s).1 ≡ (copied s).1)

  fill_form-Outcome : (s : S) → Outcome (Holds s) (fill_form H file src s).0
  unfolding fill_form fail_with
  fill_form-Outcome s = elim (Option-cases (opened s).0) [
    | inr (e, failed) ↦ inl (wrap "failed to create form file" e, rw (failed, fill_form) refl)
    | inl opens ↦ elim (Option-cases (copied s).0) [
      | inr (e, failed) ↦
          inl (wrap "failed to copy file into form body" e, rw (opens, failed, fill_form) refl)
      | inl copies ↦
          let same : (fill_form H file src s).1 ≡ (copied s).1 =
            rw (opens, copies, fill_form) refl in
          inr (writer s, rw (opens, copies, fill_form) refl, (refl, opens, copies, same))
    ]
  ]

  Holds-closed :
      (s : S) (w : ℕ) → Holds s w → H.close_writer w (fill_form H file src s).1 ≡ closed s
  Holds-closed s w (made, _, _, same) = rw (made, same) refl

  module _ (unread : S) (url : String) where
    form_request-Outcome :
        (start s : S) (w : ℕ)
        → IsFilled unread start
        → w ≡ writer start
        → (s ≡ (closed start).1) ⊎ (s ≡ (H.getenv "HTTP_PORT" (closed start).1).1)
        → Outcome (IsPosted unread url) (form_request H url w s).0
    unfolding form_request fail_with
    form_request-Outcome start s w filled made closes =
        elim (Result-cases (H.new_request "POST" url (some (H.form_of w s).0))) [
          | inl (e, failed) ↦
              inl (wrap "failed to create HTTP request" e, rw (failed, form_request) refl)
          | inr (req, built) ↦ inr (
            req,
            rw (built, form_request) refl,
            record {
              start = start;
              filled = filled;
              before = s;
              closes = closes;
              built =
                  subst (λ v. H.new_request "POST" url (some (H.form_of v s).0) ≡ ok req) made
                    built;
            },
          )
        ]

    -- The rewound file is put into a form anew.
    refilled :
        (u : S)
        → (H.seek_start file u).0 ≡ none
        → (w : ℕ) → Holds (H.seek_start file u).1 w
        → Outcome
            (IsPosted unread url)
            (form_request H url w
              (H.close_writer w (fill_form H file src (H.seek_start file u).1).1).1).0
    refilled u rewinds w held =
        let start : S = (H.seek_start file u).1 in
        form_request-Outcome start _ w
          (record { at_start = inr (u, rewinds, refl); opens = held.1; copies = held.2 }) held.0
          (inl (ap (λ q. q.1) (Holds-closed start w held)))

    retry_request-Outcome :
        (attempt : ℕ) (s : S)
        → Outcome (IsPosted unread url) (retry_request H file src url attempt s).0
    unfolding retry_request fail_with
    retry_request-Outcome attempt s =
        let u : S = H.sleep (seconds (2 ^ attempt)) s in
        elim (Option-cases (H.seek_start file u).0) [
          | inr (e, failed) ↦
              inl (wrap "failed to reset file position" e, rw (failed, retry_request) refl)
          | inl rewinds ↦
              rw (rewinds, retry_request)
                (then_Outcome _ _ (fill_form-Outcome _) (refilled u rewinds))
        ]

    attempt_request-Outcome :
        (attempt : ℕ) (first : HttpRequest) (s : S)
        → IsPosted unread url first
        → Outcome (IsPosted unread url) (attempt_request H file src url attempt first s).0
    unfolding attempt_request
    attempt_request-Outcome attempt first s posted = elim (Bool-cases (eqb attempt 0)) [
      | inl initial ↦ rw initial (inr (first, refl, posted))
      | inr later ↦ rw later (retry_request-Outcome attempt s)
    ]

  accepted_statuses :
      (resp : HttpResponse)
      → accepted resp.status_code ≡ true
      → (resp.status_code ≡ 200) ⊎ (resp.status_code ≡ 201)
  accepted_statuses resp h = ground (arith, h)

  module _ (unread : S) (ip port : String) where
    abbrev url : String
    url = "http://" <> ip <> ":" <> port <> "/upload"

    take_reply_lem :
        (reply : Result HttpResponse) (rest : Option GoError → Sending S (Option GoError)) (s : S)
        {Goal : Type 0}
        → ((resp : HttpResponse) → reply ≡ ok resp → accepted resp.status_code ≡ true → Goal)
        → ((e : Option GoError) (t : S) → (answer (rest e t)).0 ≡ none → Goal)
        → (answer (take_reply H ip port reply rest s)).0 ≡ none
        → Goal
    unfolding take_reply
    take_reply_lem (err e) rest s done k h = k (some e) s h
    take_reply_lem (ok resp) rest s done k h = elim (Bool-cases (accepted resp.status_code)) [
      | inl accepts ↦ done resp refl accepts
      | inr refuses ↦ k _ _ (rw refuses at h)
    ]

    upload-IsAccepted :
        (rounds attempt : ℕ) (last_err : Option GoError) (first : HttpRequest) (s : S)
        → IsPosted unread url first
        → (answer (upload H file src ip port url rounds attempt last_err first s)).0 ≡ none
        → IsAccepted unread url
    unfolding upload
    upload-IsAccepted zero attempt none first s posted h = absurd (some_is_not_none h)
    upload-IsAccepted zero attempt (some x) first s posted h = absurd (some_is_not_none h)
    upload-IsAccepted (suc rounds) attempt last_err first s posted h =
        then_nil _ _ (attempt_request-Outcome unread url attempt first s posted)
          (λ req is_posted.
            take_reply_lem _ (λ e. upload H file src ip port url rounds (attempt + 1) e first) _
              (λ resp replies accepts. record {
                request = req;
                posted = is_posted;
                before = _;
                response = resp;
                replies = replies;
                accepts = accepted_statuses resp accepts;
              })
              (λ e t. upload-IsAccepted rounds (attempt + 1) e first t posted))
          h

module _ (K : Kube) (H : Host K.State) (src : String) where
  -- The state in which the sidecars are listed, after the file is opened and its size is asked for.
  abbrev pub to_list : ℕ → K.State → K.State
  to_list file s = (H.stat_size file (H.open_file src s).1).1

  abbrev pub listed : ℕ → K.State → K.State
  listed file s = (K.list_pods "app" "container-checkpoint-sidecar" (to_list file s)).1

  -- The file was opened, the sidecars were listed, and the first one that runs on the target node
  -- accepted the file.
  pub record IsTaken (target : String) (s : K.State) : Type 0 where
    pub file : ℕ
    pub opens : (H.open_file src s).0 ≡ ok file
    pub sidecars : List Pod
    pub lists : (K.list_pods "app" "container-checkpoint-sidecar" (to_list file s)).0 ≡ ok sidecars
    pub sidecar : Pod
    pub first : FirstSidecar target sidecars sidecar
    pub addressed : sidecar.status.pod_ip ≢ ""
    pub port : String
    pub accepted_there :
        IsAccepted H file src
          (listed file s)
          ("http://" <> sidecar.status.pod_ip <> ":" <> port <> "/upload")

  -- The address accepted the file, on some port.
  abbrev Accepted : ℕ → K.State → String → Type 0
  Accepted file s ip =
      (port : String) × IsAccepted H file src s ("http://" <> ip <> ":" <> port <> "/upload")

  send_form-IsAccepted :
      (file : ℕ) (ip : String) (s : K.State)
      → (answer (send_form K H file src ip s)).0 ≡ none
      → Accepted file s ip
  unfolding send_form
  send_form-IsAccepted file ip s h = elim (fill_form-Outcome H file src s) [
    | inl (e, failed) ↦ absurd (some_is_not_none (rw failed at h))
    | inr (w, fills, held) ↦ elim (Option-cases (H.close_writer w (fill_form H file src s).1).0) [
      | inr (e, failed) ↦ absurd (some_is_not_none (rw (fills, failed) at h))
      | inl closes ↦
          then_nil _ _
            (form_request-Outcome H file src s _ s _ w
              (record { at_start = inl refl; opens = held.1; copies = held.2 }) held.0
              (inr (ap (λ q. (H.getenv "HTTP_PORT" q.1).1) (Holds-closed H file src s w held))))
            (λ first posted sent.
              (_, upload-IsAccepted H file src s ip _ 3 0 none first _ posted sent))
            (rw (fills, closes) at h)
    ]
  ]

  send_to-addressed :
      (file : ℕ) (target ip : String) (s : K.State)
      → (answer (send_to K H file src target ip s)).0 ≡ none
      → ((ip == "") ≡ false) × Accepted file s ip
  unfolding send_to
  send_to-addressed file target ip s h = elim (Bool-cases (ip == "")) [
    | inl bare ↦ absurd (some_is_not_none (rw bare at h))
    | inr addressed ↦ (addressed, send_form-IsAccepted file ip s (rw addressed at h))
  ]

  not_empty : (ip : String) → (ip == "") ≡ false → ip ≢ ""
  not_empty ip h e = cc (h, (eq_iff ip "").1 e)

  served-IsTaken :
      (file : ℕ) (target : String) (s : K.State)
      → (H.open_file src s).0 ≡ ok file
      → (pods : List Pod)
      → (K.list_pods "app" "container-checkpoint-sidecar" (to_list file s)).0 ≡ ok pods
      → (answer (send_to K H file src target (target_ip target pods) (listed file s))).0 ≡ none
      → IsTaken target s
  served-IsTaken file target s opens pods lists sent =
      let (addressed, there) =
        send_to-addressed file target (target_ip target pods) (listed file s) sent in
      let (sidecar, first, address) = target_ip-FirstSidecar target pods addressed in
      let there' : Accepted file (listed file s) sidecar.status.pod_ip =
        subst (Accepted file (listed file s)) address there in
      record {
        file = file;
        opens = opens;
        sidecars = pods;
        lists = lists;
        sidecar = sidecar;
        first = first;
        addressed = λ e. not_empty (target_ip target pods) addressed (address ∙ e);
        port = there'.0;
        accepted_there = there'.1;
      }

  send_file-IsTaken :
      (file : ℕ) (target : String) (s : K.State)
      → (H.open_file src s).0 ≡ ok file
      → (answer (send_file K H file src target (H.open_file src s).1)).0 ≡ none
      → IsTaken target s
  unfolding send_file
  send_file-IsTaken file target s opens h =
      elim (Result-cases (H.stat_size file (H.open_file src s).1).0) [
        | inl (e, failed) ↦ absurd (some_is_not_none (rw (failed, send_file) at h))
        | inr (size, measured) ↦
            elim (Result-cases
              (K.list_pods "app" "container-checkpoint-sidecar" (to_list file s)).0) [
                | inl (e, failed) ↦
                    absurd (some_is_not_none (rw (measured, failed, send_file) at h))
                | inr (pods, lists) ↦
                    served-IsTaken file target s opens pods lists
                      (rw (measured, lists, send_file) at h)
              ]
      ]

  -- `TransferCheckpoint` returns nil only if it opened the file, the first listed pod that is running
  -- on the target node has an address, and that address answered, with the status 200 or 201, the
  -- POST of a form into which the file was copied from its start, as the field "file" under the last
  -- part of its path.
  pub transfer_checkpoint-IsTaken :
      (target : String) (s : K.State)
      → (transfer_checkpoint K H src target s).0 ≡ none
      → IsTaken target s
  unfolding transfer_checkpoint
  transfer_checkpoint-IsTaken target s h = elim (Result-cases (H.open_file src s).0) [
    | inl (e, failed) ↦ absurd (some_is_not_none (rw (failed, transfer_checkpoint) at h))
    | inr (file, opens) ↦
        send_file-IsTaken file target s opens (rw (opens, transfer_checkpoint) at h)
  ]
