-- ===== src/Server/Temporal/Idle.antt =====
-- The calls of Temporal's WorkflowService in crates/server/src/grpc.rs that answer success and do nothing else, with
-- every field of the answer at its default; and get_system_info, which answers the version that the build sets.
use khronos.Prelude.{String}
use khronos.Prelude.Exec.{Exec, pure}
use khronos.Server.State.{Server, Status}

-- calls of a worker for workflow tasks
pub data WorkflowTaskCall : Type 0 where
  get_workflow_execution_history : WorkflowTaskCall
  poll_workflow_task_queue : WorkflowTaskCall
  respond_workflow_task_completed : WorkflowTaskCall
  respond_workflow_task_failed : WorkflowTaskCall

-- schedules
pub data ScheduleCall : Type 0 where
  patch_schedule : ScheduleCall
  list_schedules : ScheduleCall

-- namespaces and runs
pub data ExecutionCall : Type 0 where
  describe_workflow_execution : ExecutionCall
  list_namespaces : ExecutionCall
  update_namespace : ExecutionCall
  deprecate_namespace : ExecutionCall
  execute_multi_operation : ExecutionCall
  get_workflow_execution_history_reverse : ExecutionCall
  request_cancel_workflow_execution : ExecutionCall
  signal_workflow_execution : ExecutionCall
  signal_with_start_workflow_execution : ExecutionCall
  reset_workflow_execution : ExecutionCall
  terminate_workflow_execution : ExecutionCall
  delete_workflow_execution : ExecutionCall
  list_open_workflow_executions : ExecutionCall
  list_closed_workflow_executions : ExecutionCall
  list_workflow_executions : ExecutionCall
  list_archived_workflow_executions : ExecutionCall
  scan_workflow_executions : ExecutionCall
  count_workflow_executions : ExecutionCall

-- activity tasks, queries, task queues, the cluster and search attributes
pub data ActivityTaskCall : Type 0 where
  record_activity_task_heartbeat : ActivityTaskCall
  record_activity_task_heartbeat_by_id : ActivityTaskCall
  respond_activity_task_completed_by_id : ActivityTaskCall
  respond_activity_task_failed_by_id : ActivityTaskCall
  respond_activity_task_canceled : ActivityTaskCall
  respond_activity_task_canceled_by_id : ActivityTaskCall
  respond_query_task_completed : ActivityTaskCall
  reset_sticky_task_queue : ActivityTaskCall
  describe_task_queue : ActivityTaskCall
  list_task_queue_partitions : ActivityTaskCall
  get_cluster_info : ActivityTaskCall
  get_search_attributes : ActivityTaskCall
  list_schedule_matching_times : ActivityTaskCall
  count_schedules : ActivityTaskCall

-- versions and deployments of workers
pub data DeploymentCall : Type 0 where
  update_worker_build_id_compatibility : DeploymentCall
  get_worker_build_id_compatibility : DeploymentCall
  update_worker_versioning_rules : DeploymentCall
  get_worker_versioning_rules : DeploymentCall
  get_worker_task_reachability : DeploymentCall
  describe_deployment : DeploymentCall
  describe_worker_deployment_version : DeploymentCall
  list_deployments : DeploymentCall
  get_deployment_reachability : DeploymentCall
  get_current_deployment : DeploymentCall
  set_current_deployment : DeploymentCall
  set_worker_deployment_current_version : DeploymentCall
  describe_worker_deployment : DeploymentCall
  delete_worker_deployment : DeploymentCall
  delete_worker_deployment_version : DeploymentCall
  set_worker_deployment_ramping_version : DeploymentCall
  list_worker_deployments : DeploymentCall
  create_worker_deployment : DeploymentCall
  create_worker_deployment_version : DeploymentCall
  update_worker_deployment_version_compute_config : DeploymentCall
  validate_worker_deployment_version_compute_config : DeploymentCall
  update_worker_deployment_version_metadata : DeploymentCall
  set_worker_deployment_manager : DeploymentCall

-- updates of runs, batches, Nexus tasks, options of activities, rules and workers
pub data BatchCall : Type 0 where
  update_workflow_execution : BatchCall
  poll_workflow_execution_update : BatchCall
  start_batch_operation : BatchCall
  stop_batch_operation : BatchCall
  describe_batch_operation : BatchCall
  list_batch_operations : BatchCall
  poll_nexus_task_queue : BatchCall
  respond_nexus_task_completed : BatchCall
  respond_nexus_task_failed : BatchCall
  update_activity_options : BatchCall
  update_workflow_execution_options : BatchCall
  pause_activity : BatchCall
  unpause_activity : BatchCall
  reset_activity : BatchCall
  create_workflow_rule : BatchCall
  describe_workflow_rule : BatchCall
  delete_workflow_rule : BatchCall
  list_workflow_rules : BatchCall
  trigger_workflow_rule : BatchCall
  record_worker_heartbeat : BatchCall
  list_workers : BatchCall
  update_task_queue_config : BatchCall
  fetch_worker_config : BatchCall
  update_worker_config : BatchCall
  describe_worker : BatchCall

-- runs, activities and Nexus operations on their own
pub data OperationCall : Type 0 where
  pause_workflow_execution : OperationCall
  unpause_workflow_execution : OperationCall
  start_activity_execution : OperationCall
  start_nexus_operation_execution : OperationCall
  describe_activity_execution : OperationCall
  describe_nexus_operation_execution : OperationCall
  poll_activity_execution : OperationCall
  poll_nexus_operation_execution : OperationCall
  list_activity_executions : OperationCall
  list_nexus_operation_executions : OperationCall
  count_activity_executions : OperationCall
  count_nexus_operation_executions : OperationCall
  request_cancel_activity_execution : OperationCall
  request_cancel_nexus_operation_execution : OperationCall
  terminate_activity_execution : OperationCall
  delete_activity_execution : OperationCall
  pause_activity_execution : OperationCall
  reset_activity_execution : OperationCall
  unpause_activity_execution : OperationCall
  update_activity_execution_options : OperationCall
  terminate_nexus_operation_execution : OperationCall
  delete_nexus_operation_execution : OperationCall

-- workers and queries
pub data WorkerCall : Type 0 where
  shutdown_worker : WorkerCall
  query_workflow : WorkerCall

pub data IdleCall : Type 0 where
  workflow_task : WorkflowTaskCall → IdleCall
  schedule : ScheduleCall → IdleCall
  execution : ExecutionCall → IdleCall
  activity_task : ActivityTaskCall → IdleCall
  deployment : DeploymentCall → IdleCall
  batch : BatchCall → IdleCall
  operation : OperationCall → IdleCall
  worker : WorkerCall → IdleCall

-- `Ok(Response::new(Default::default()))`; the answer is its type's default message
unfoldable pub answer_idle : IdleCall → Exec Server Status (Unit {0})
answer_idle call = pure tt

-- `version` is CARGO_PKG_VERSION
unfoldable pub get_system_info : String → Exec Server Status String
get_system_info version = pure version
