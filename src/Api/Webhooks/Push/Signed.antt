-- ===== src/Api/Webhooks/Push/Signed.antt =====
-- A push starts a deployment only if it is authentic.
use ship_zen_gcp.Prelude.{
  ◌≡◌, refl, sym, ap, ◌∙◌, Bool, true, [], ◌∷◌, ◌++◌, Text, text_eq, text_eq→eq, Option, none, some,
  any, filter, codes, ◌==◌, Bool-cases, inl, inr, arith,
}
use ship_zen_gcp.Database.{RowId, Deployment, Project}
use ship_zen_gcp.Api.Store.{Store, Request, Reply, ok, http}
use ship_zen_gcp.Api.Ensures.{Ensures, by_ok, by_guard, by_required, by_nested, by_any, by_if}
use ship_zen_gcp.Api.Access.{find_project}
use ship_zen_gcp.Api.Limits.{Limits}
use ship_zen_gcp.Api.Create.{is_active}
use ship_zen_gcp.Api.Webhooks.{PushEvent, Delivery, Hmac, latest, event_row, start_deployment}
use ship_zen_gcp.Api.Webhooks.Starting.{Started, by_start}
use ship_zen_gcp.Api.Webhooks.Push.{
  given, target_branch, pushes_bound, is_signed, Wanted, deployable, wanted, authentic, push_checks,
  same_repo, triggered, push_row, push_deploy, after_checks, github_webhook,
}

pub given→eq : (o : Option Text) (t : Text) → given o ≡ some t → o ≡ some t
given→eq none t h = ground arith
given→eq (some []) t h = ground arith
given→eq (some (c ∷ cs)) t h = h

module _ (hmac : Hmac) (decrypt : Text → Option Text) (json : Text → Option PushEvent) (p : RowId)
    (del : Delivery) (s : Store) where
  -- The push of `w` is authentic: the header is the HMAC of the body under the decrypted secret of the
  -- project, and the body says that the project's branch was pushed, of the repository that the
  -- project is bound to, if it is bound.
  pub record IsAuthentic (w : Wanted) : Type 0 where
    pub project : Project
    pub stored : Text
    pub secret : Text
    pub event : PushEvent
    pub is_there : find_project p s.projects ≡ some project
    pub has_secret : project.webhook_secret ≡ some stored
    pub decrypted : decrypt stored ≡ some secret
    pub signed : del.signature ≡ some (codes "sha256=" ++ hmac secret del.body)
    pub decoded : json del.body ≡ some event
    pub to_branch : event.ref ≡ codes "refs/heads/" ++ target_branch project
    pub of_repository : pushes_bound project.github_repo_id event.repository_id ≡ true
    pub from_url : event.clone_url ≡ some w.url
    pub on_branch : w.branch ≡ target_branch project

  abbrev Allowed : Option Wanted → Type 0
  Allowed none = Unit
  Allowed (some w) = IsAuthentic w

  module _ (q : Project) (stored secret : Text) (event : PushEvent)
      (there : find_project p s.projects ≡ some q) (has : q.webhook_secret ≡ some stored)
      (decrypts : decrypt stored ≡ some secret)
      (sent : del.signature ≡ some (codes "sha256=" ++ hmac secret del.body))
      (decodes : json del.body ≡ some event) where
    deployable-Allowed :
        (l : Limits) (req : Request)
        → event.ref ≡ codes "refs/heads/" ++ target_branch q
        → Ensures Allowed (deployable l req p s q event)
    unfolding deployable
    deployable-Allowed l req branch = by_required (given event.clone_url) 400 _ λ url from.
        by_guard _ _ _ λ bound. by_any _ _ (
          by_ok (some (record { url = url; branch = target_branch q })) (record {
            project = q;
            stored = stored;
            secret = secret;
            event = event;
            is_there = there;
            has_secret = has;
            decrypted = decrypts;
            signed = sent;
            decoded = decodes;
            to_branch = branch;
            of_repository = bound;
            from_url = given→eq _ _ from;
            on_branch = refl;
          }))

    wanted-Allowed : (l : Limits) (req : Request) → Ensures Allowed (wanted l req p s q event)
    unfolding wanted
    wanted-Allowed l req =
        by_if (text_eq event.ref (codes "refs/heads/" ++ target_branch q))
          (deployable l req p s q event) (ok none)
          (λ b. deployable-Allowed l req (text_eq→eq _ _ b)) (by_ok none tt)

  authentic-Allowed :
      (l : Limits) (req : Request) (header : Text)
      → del.signature ≡ some header
      → Ensures Allowed (authentic l hmac decrypt json req p del header s)
  unfolding authentic is_signed
  authentic-Allowed l req header sent = by_guard _ _ _ λ _. by_required _ _ _ λ q there.
      by_nested _ _ _ _ _ λ stored secret has decrypts. by_guard _ _ _ λ match.
        by_required _ _ _ λ event decodes.
          wanted-Allowed q stored secret event there (given→eq _ _ has) decrypts
            (sent ∙ ap some (sym (text_eq→eq _ _ match))) decodes l req

  push_checks-Allowed :
      (l : Limits) (req : Request) (b : Bool)
      → Ensures Allowed (push_checks l hmac decrypt json req p b del s)
  unfolding push_checks
  push_checks-Allowed l req b =
      by_required _ _ _ λ header h.
        by_if b _ _ (λ _. authentic-Allowed l req header (given→eq _ _ h)) (by_ok none tt)

  -- What a request leaves: nothing has changed; or an authentic push started one deployment of its URL
  -- and branch, with its message and no active rival.
  abbrev pub Outcome : Reply (Option Deployment) → Store → Type 0
  Outcome (http n) after = after ≡ s
  Outcome (ok none) after = after ≡ s
  Outcome (ok (some d)) after =
      (w : Wanted) × IsAuthentic w
      × (d.project ≡ p)
      × (d.repo_url ≡ w.url)
      × (d.branch ≡ w.branch)
      × Started s d after

  module _ (req : Request) (image : Text) (w : Wanted) (a : IsAuthentic w) where
    triggered-Outcome :
        (last : Option Deployment)
        → let d = push_row req p image w last s in
          Outcome
            (triggered d (start_deployment req.committed d s) s).0
            (triggered d (start_deployment req.committed d s) s).1
    unfolding push_row event_row
    triggered-Outcome last =
        by_start
          (λ o.
            Outcome (triggered (push_row req p image w last s) o s).0
              (triggered (push_row req p image w last s) o s).1)
          req.committed (push_row req p image w last s) s refl
          (λ after started. (w, a, refl, refl, refl, started))

    push_deploy-Outcome : Outcome (push_deploy req p image w s).0 (push_deploy req p image w s).1
    unfolding push_deploy
    push_deploy-Outcome = elim (Bool-cases (any (is_active p) s.deployments)) [
      | inl e ↦ rw e refl
      | inr e ↦ rw e (elim (Bool-cases (same_repo w.url last)) [
        | inl f ↦ rw f (triggered-Outcome last)
        | inr f ↦ rw f refl
      ])
    ]
      where
        last : Option Deployment
        last = latest (λ d. d.updated_at) (filter (λ d. d.project == p) s.deployments)

  after_checks-Outcome :
      (req : Request) (image : Text) (r : Reply (Option Wanted))
      → Ensures Allowed r
      → Outcome (after_checks req p image r s).0 (after_checks req p image r s).1
  after_checks-Outcome req image (http n) h = refl
  after_checks-Outcome req image (ok none) h = refl
  after_checks-Outcome req image (ok (some w)) h = push_deploy-Outcome req image w h.holds

  -- Whatever is sent to a project's webhook, nothing changes, or exactly one deployment of the project
  -- is started, with its message and no active rival. It is started only if the signature is the HMAC
  -- of the body under the project's own decrypted secret, the body is a push to the branch of the
  -- project, of the repository that it is bound to, if it is bound to one, and the deployment is of the
  -- URL in the body and that branch.
  pub github_webhook-Outcome :
      (l : Limits) (req : Request) (image : Text) (is_push : Bool)
      → Outcome
          (github_webhook l hmac decrypt json req p image is_push del s).0
          (github_webhook l hmac decrypt json req p image is_push del s).1
  unfolding github_webhook
  github_webhook-Outcome l req image is_push =
      after_checks-Outcome req image (push_checks l hmac decrypt json req p is_push del s)
        (push_checks-Allowed l req is_push)
