-- ===== src/Accessors/InitBundle.antt =====
-- apis/initbundle/v1alpha1/zz_generated.managed.go
use provider_stackrox.Base.{Option, List}
use provider_stackrox.Deps.{Deps}
use provider_stackrox.Api.InitBundle.{InitBundle, get_condition, get_provider_config_reference}
use provider_stackrox.Accessors.{SpecLib, Accessors}

module _ (D : Deps) where
  -- SetConditions, with any number of conditions
  unfoldable pub set_conditions : InitBundle D → List D.Condition → InitBundle D
  set_conditions mg c = record mg {
    status = record (mg.status) { resource_status = D.set_conditions mg.status.resource_status c };
  }

  module _ (F : SpecLib D) where
    unfoldable pub get_deletion_policy : InitBundle D → F.DeletionPolicy
    get_deletion_policy mg = F.deletion_policy mg.spec.resource_spec

    unfoldable pub get_provider_reference : InitBundle D → Option D.Reference
    get_provider_reference mg = F.provider_reference mg.spec.resource_spec

    unfoldable pub get_publish_connection_details_to :
        InitBundle D → Option F.PublishConnectionDetailsTo
    get_publish_connection_details_to mg = F.publish_connection_details_to mg.spec.resource_spec

    unfoldable pub get_write_connection_secret_to_reference :
        InitBundle D → Option F.SecretReference
    get_write_connection_secret_to_reference mg =
        F.write_connection_secret_to_reference mg.spec.resource_spec

    unfoldable pub set_deletion_policy : InitBundle D → F.DeletionPolicy → InitBundle D
    set_deletion_policy mg r = record mg {
      spec = record (mg.spec) { resource_spec = F.set_deletion_policy mg.spec.resource_spec r };
    }

    unfoldable pub set_provider_config_reference : InitBundle D → Option D.Reference → InitBundle D
    set_provider_config_reference mg r = record mg {
      spec = record (mg.spec) {
        resource_spec = F.set_provider_config_reference mg.spec.resource_spec r;
      };
    }

    unfoldable pub set_provider_reference : InitBundle D → Option D.Reference → InitBundle D
    set_provider_reference mg r = record mg {
      spec = record (mg.spec) { resource_spec = F.set_provider_reference mg.spec.resource_spec r };
    }

    unfoldable pub set_publish_connection_details_to :
        InitBundle D → Option F.PublishConnectionDetailsTo → InitBundle D
    set_publish_connection_details_to mg r = record mg {
      spec = record (mg.spec) {
        resource_spec = F.set_publish_connection_details_to mg.spec.resource_spec r;
      };
    }

    unfoldable pub set_write_connection_secret_to_reference :
        InitBundle D → Option F.SecretReference → InitBundle D
    set_write_connection_secret_to_reference mg r = record mg {
      spec = record (mg.spec) {
        resource_spec = F.set_write_connection_secret_to_reference mg.spec.resource_spec r;
      };
    }

    abbrev pub accessors : Accessors D F (InitBundle D)
    accessors = record {
      get_condition = get_condition D;
      get_deletion_policy = get_deletion_policy;
      get_provider_config_reference = get_provider_config_reference D;
      get_provider_reference = get_provider_reference;
      get_publish_connection_details_to = get_publish_connection_details_to;
      get_write_connection_secret_to_reference = get_write_connection_secret_to_reference;
      set_conditions = set_conditions;
      set_deletion_policy = set_deletion_policy;
      set_provider_config_reference = set_provider_config_reference;
      set_provider_reference = set_provider_reference;
      set_publish_connection_details_to = set_publish_connection_details_to;
      set_write_connection_secret_to_reference = set_write_connection_secret_to_reference;
    }
