-- ===== src/Lib.antt =====
-- A verification library for the vault-config-operator, a Kubernetes operator that keeps the
-- configuration of a HashiCorp Vault server in line with custom resources.
--
-- The program. Every custom resource is a `VaultObject` (api/v1alpha1/utils/vaultobject.go): it has a
-- path in Vault, a payload, and a test whether what Vault answers is the desired state. An endpoint
-- reads, writes and deletes at that path through the calls of api/v1alpha1/utils/vaultutils.go. A
-- reconciler of controllers/vaultresourcecontroller is called for each event of a resource: it
-- prepares the object, brings Vault to the desired state through the endpoint, records the outcome
-- in the object's conditions and guards the object by a finalizer, and it cleans up when the object
-- is deleted. RandomSecrets have a controller of their own, and so have VaultSecrets, which render
-- secrets of Vault into a Kubernetes secret. Calls go to Vault with a client that was
-- logged in with a Kubernetes service account and may be cached.
--
-- The files:
--   Common.antt, Common/: shared names; Action.antt is Go's `(A, error)` with a state, and panics
--     are results of their own; Text.antt is the part of Go's package strings that is called.
--   Paths.antt: `CleansePath` of api/v1alpha1/utils/commons.go.
--   Payload.antt: `map[string]interface{}` and `reflect.DeepEqual`; Payload/Decoded.antt tells the
--     maps that JSON decodes to.
--   Vault.antt: api/v1alpha1/utils/vaultutils.go; Vault/Store.antt states what is relied on of the
--     server, and Vault/Calls.antt draws from it what the calls do.
--   Endpoint.antt: `VaultEndpoint` of api/v1alpha1/utils/vaultobject.go.
--   Engine.antt, Pki.antt: the endpoints of api/v1alpha1/utils/vaultengineobject.go and
--     vautlpkiengineobject.go.
--   Conditions.antt, Outcome.antt: `AddOrReplaceCondition`, and `ManageOutcomeWithRequeue` of
--     controllers/vaultresourcecontroller/utils.go; Outcome/Api.antt states what is relied on of the
--     API server.
--   Periodic.antt: the predicate and the owner test of the same file.
--   Resource.antt: the helpers for Kubernetes resources of the same file; Resource/Applied.antt states
--     what is relied on of the client.
--   Reconcile.antt: the three reconcilers of controllers/vaultresourcecontroller, whose `Reconcile`
--     is one function here, with the clean-up and the logic as its parameters.
--   KubeAuth.antt: the login and the client cache of api/v1alpha1/utils/commons.go.
--   Credentials.antt: `RootCredentialConfig` of the same file.
--   RandomSecret.antt: api/v1alpha1/randomsecret_types.go and its webhook; RandomSecret/Password.antt
--     generates passwords, RandomSecret/Controller.antt is controllers/randomsecret_controller.go.
--   SecretEngine.antt, AuthEngine.antt, Policy.antt, Database.antt: the resources of
--     api/v1alpha1/secretenginemount_types.go, authenginemount_types.go, policy_types.go and
--     databasesecretengineconfig_types.go; Database/Retrieval.antt reads the root credentials,
--     Database/Controller.antt is controllers/databasesecretengineconfig_controller.go.
--     Policy/Accessors.antt replaces the accessor placeholders of a policy.
--   Kinds.antt, Kinds/: one module for each file of api/v1alpha1 of which the specification, the
--     path, the payload and the comparison are modelled; Kinds/Drift.antt takes eighteen together;
--     Kinds/Retrieval.antt, Kinds/Retrieval/ read credentials, keys and tokens for nine of them;
--     Kinds/Namespaces.antt reads the namespaces of a Kubernetes role,
--     Kinds/GroupAlias/Preparation.antt what a group alias refers to;
--     Kinds/PkiSecretEngineConfig/Signing.antt is the signing of intermediate certificates.
--   RabbitMq.antt: api/v1alpha1/rabbitmqsecretengineconfig_types.go and its webhook;
--     RabbitMq/Controller.antt is controllers/rabbitmqsecretengineconfig_controller.go and
--     RabbitMq/Role.antt api/v1alpha1/rabbitmqsecretenginerole_types.go.
--   Controllers.antt, Controllers/: `Reconcile` of the controllers, from a request to the reconciler, by
--     way of `prepareContext` of controllers/commons.go. Roles.antt has the resources that prepare
--     nothing, Configs.antt those that do, Engines.antt the mounts and those with reconcilers of their
--     own.
--   Watch.antt, Watch/: what `SetupWithManager` of the controllers watches, which requests an event
--     of a secret, a RandomSecret or a namespace leads to, with one module for each controller.
--   VaultSecret.antt: api/v1alpha1/vaultsecret_types.go and utils/vaultsecretobject.go beside it;
--     VaultSecret/Hash.antt is controllers/vaultsecretutils/hash.go, VaultSecret/Controller.antt
--     controllers/vaultsecret_controller.go.
--   Samples.antt: a Vault server and an API server in memory, for the Tests modules.
--
-- How the code is translated. A Go pointer that a call changes is the `object` of a `Cell`, beside
-- the `world` of servers, clock and random numbers; a function that returns an error is an action on
-- cells whose state is kept on an error and on a panic. The Vault client, the Kubernetes client, the
-- clock, the random numbers, the sets of bytes, the HCL decoder, the template engine, SHA-256,
-- the encoding of JSON, the printing of integers, the matching of label selectors and the arithmetic
-- on floating point numbers are parameters: records of calls, with records of laws where a theorem
-- relies on them. A nil pointer, slice or map is `none`.
-- Structures keep the fields that the code reads. Times and durations are integers of nanoseconds,
-- without overflow. Loops are recursion on the list or on the number of attempts, so that there is no
-- fuel. Go visits a map in any order; here the order is that of the list.
--
-- Not modelled: logging; the lifetime watcher, which runs beside the calls, and the TLS configuration
-- of Vault clients; the roles of the Quay engine, which hold pointers to Booleans and maps; the
-- registration of the watches with the manager, and the watches of RandomSecrets and VaultSecrets;
-- templates; generated code.
pub mod Common
pub mod Paths
pub mod Payload
pub mod Vault
pub mod Endpoint
pub mod Conditions
pub mod Outcome
pub mod Engine
pub mod Pki
pub mod Reconcile
pub mod KubeAuth
pub mod RandomSecret
pub mod Periodic
pub mod SecretEngine
pub mod Policy
pub mod Credentials
pub mod Database
pub mod RabbitMq
pub mod Watch
pub mod Controllers
pub mod AuthEngine
pub mod Resource
pub mod VaultSecret
pub mod Kinds
pub mod Samples
